-- ===== src/Ipmi/Server/Sharing.antt =====
-- The server has one place for the session of all clients.
use conpot.Prelude.{ℕ, ◌≡◌, ◌≢◌, refl, true, some, List, [], ◌∷◌, arith}
use conpot.Prelude.Bytes.{Bytes, err, attribute_error}
use conpot.Prelude.Exec.{reads, ◌>>=◌}
use conpot.Ipmi.State.{Address, Server, FakeSession, Packages, Draws, self_session}
use conpot.Ipmi.Session.{close_server_session, has_key, remove_key}
use conpot.Ipmi.Server.{handle}

has_key-remove_key :
    (host other : ℕ) (hs : List ℕ)
    → host ≢ other
    → has_key other (remove_key host hs) ≡ has_key other hs
has_key-remove_key host other [] ne = refl
has_key-remove_key host other (h ∷ hs) ne = ground (arith, has_key-remove_key host other hs)

-- After `close_server_session` for the client that came last, a datagram of any other client that
-- has a session raises `AttributeError`, and changes nothing.
pub handle-close_server_session :
    (pk : Packages) (draws : Draws) (rawdata : Bytes) (address : Address) (s : Server)
    (t : FakeSession)
    → s.session ≡ some t
    → has_key t.sockaddr.0 s.sessions ≡ true
    → has_key address.0 s.sessions ≡ true
    → t.sockaddr.0 ≢ address.0
    → handle pk draws rawdata address (close_server_session s).1
      ≡ (err attribute_error, (close_server_session s).1)
unfolding handle close_server_session self_session reads ◌>>=◌
handle-close_server_session pk draws rawdata address s t e mine known ne =
    ground (arith, has_key-remove_key t.sockaddr.0 address.0 s.sessions)
