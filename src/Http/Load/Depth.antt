-- ===== src/Http/Load/Depth.antt =====
-- How deep `load_status` calls itself.
use conpot.Prelude.{ℕ, suc, ◌≡◌, refl, ap, Option, none, List}
use mathlib.Core.Path.{fun_ext}
use conpot.Prelude.Bytes.{Bytes, codes}
use conpot.Prelude.Dict.{Dict}
use conpot.Prelude.Exec.{Exec}
use conpot.Prelude.Text.{ℤ, pos}
use conpot.Http.State.{Header, Server, Connection, World}
use conpot.Http.Load.{Loaded, status_round, status_source, status_from_remote, load_status}

module _ (w : World) (server : Server) (requeststring : Bytes) where
  load_status-503 :
      (deeper : Dict Bytes Bytes → List Header → Exec Connection Loaded) (fuel : ℕ)
      (requestheaders : Dict Bytes Bytes) (headers : List Header) (method : Bytes)
      (body : Option Bytes)
      → load_status w server (suc fuel) (pos 503) requeststring requestheaders headers method body
        ≡ status_round w server deeper (pos 503) requeststring requestheaders headers method body
  unfolding load_status status_round status_source status_from_remote
  load_status-503 deeper fuel requestheaders headers method body = refl

  -- `load_status` calls itself at most once, whatever the configuration and the remote systems do: a
  -- call at any depth of two or more gives what two rounds give, where `deeper` stands for a third call,
  -- and may do anything.
  pub load_status-depth :
      (deeper : Dict Bytes Bytes → List Header → Exec Connection Loaded) (fuel : ℕ) (status : ℤ)
      (requestheaders : Dict Bytes Bytes) (headers : List Header) (method : Bytes)
      (body : Option Bytes)
      → load_status w server
          (suc (suc fuel))
          status
          requeststring
          requestheaders
          headers
          method
          body
        ≡ status_round w server
            (λ sent hs.
              status_round w server deeper (pos 503) requeststring sent hs (codes "GET") none)
            status
            requeststring
            requestheaders
            headers
            method
            body
  unfolding load_status
  load_status-depth deeper fuel status requestheaders headers method body =
      ap
        (λ (again : Dict Bytes Bytes → List Header → Exec Connection Loaded).
          status_round w server again status requeststring requestheaders headers method body)
        (fun_ext λ sent. fun_ext λ hs. load_status-503 deeper fuel sent hs (codes "GET") none)
