-- ===== src/Tests/Modbus.antt =====
-- conpot/protocols/modbus at concrete inputs.
use conpot.Prelude.{
  ℕ, suc, ◌+◌, ◌<◌, ◌≤◌, ◌≡◌, ◌↔◌, ◌⊎◌, refl, true, false, Bool, Option, none, some, [], ◌∷◌, ltb,
  arith, nat_eq, list_eq, List, ◌++◌, length, drop,
}
use conpot.Prelude.Bytes.{Bytes, codes}
use conpot.Prelude.Dict.{Dict, get, put, has}
use conpot.Modbus.Memory.{
  Block, Slave, is_in, mediator, added, unknown_key, refused, duplicated_key, add_block,
}
use conpot.Modbus.Memory.Overlap.{Holds, Free, is_in_iff, add_block-Free, add_block-add_block}
use conpot.Modbus.Slave.{Library, Reply, returned, response, handle_request}
use conpot.Modbus.Slave.Replies.{handle_request-shape}
use conpot.Modbus.SlaveDb
use conpot.Modbus.SlaveDb.{Parsed, parsed, invalid, tcp, Outcome, sent, silent}
use conpot.Modbus.Server.{
  closes, falls_silent, new_connection, traffic, connection_terminated, broke, waits, struct_error,
  filled, fill, handle,
}
use conpot.Modbus.Server.Requests.{fill-exact}
use conpot.Modbus.Server.Rounds.{Finishes, handle-Finishes}
use conpot.Prelude.Text.{concat}

abbrev low : Block
low = record { starting_address = 10; databus_key = codes "low"; size = 20 }

abbrev high : Block
high = record { starting_address = 100; databus_key = codes "high"; size = 8 }

is_in_iff_example : (is_in low 25 10 ≡ true) ↔ ((a : ℕ) × Holds low a × ((25 ≤ a) × (a < 25 + 10)))
is_in_iff_example = is_in_iff low 25 10 (omega arith) (omega arith)

abbrev value_length : Bytes → Option ℕ
value_length key = some 8

abbrev one_block : Slave
one_block = record { blocks = (codes "low", (3, 10)) ∷ []; memory = (3, low ∷ []) ∷ [] }

abbrev after_one : Slave
after_one = record {
  blocks = (codes "low", (3, 10)) ∷ (codes "new", (3, 40)) ∷ [];
  memory = (3, mediator (codes "new") 40 8 ∷ low ∷ []) ∷ [];
}

add_block-one : add_block value_length (codes "new") 3 40 8 one_block ≡ added after_one
unfolding add_block has get put
add_block-one = refl

get-one : get 3 one_block.memory ≡ some (low ∷ [])
unfolding get
get-one = refl

add_block-Free_example :
    (get 3 after_one.memory ≡ some (mediator (codes "new") 40 8 ∷ low ∷ [])) × Free 40 8 (low ∷ [])
add_block-Free_example =
    add_block-Free value_length (codes "new") 3 40 8 one_block after_one (low ∷ []) 8 get-one
      (omega arith) refl (omega arith) add_block-one

abbrev left_over : Slave
left_over = record {
  blocks = (codes "low", (3, 10)) ∷ (codes "new", (3, 40)) ∷ [];
  memory = (3, low ∷ []) ∷ [];
}

add_block-missing : add_block (λ key. none) (codes "new") 3 40 8 one_block ≡ unknown_key left_over
unfolding add_block has get put
add_block-missing = refl

add_block-add_block_example :
    (left_over.memory ≡ one_block.memory)
    × (add_block value_length (codes "new") 3 50 8 left_over ≡ refused duplicated_key)
add_block-add_block_example =
    add_block-add_block (λ key. none) (codes "new") 3 40 8 one_block left_over value_length 3 50 8
      add_block-missing (omega arith)

-- A library with one function that returns a byte.
abbrev lib : Library ℕ
lib = record {
  in_fn_code_map = λ c. ltb c 5;
  can_broadcast = λ c. false;
  illegal_function = 1;
  call = λ c pdu s. (returned (9 ∷ []), suc s);
}

handle_request-three : (handle_request lib (3 ∷ []) false 0).0 ≡ response (3 ∷ 9 ∷ [])
unfolding handle_request
handle_request-three = refl

handle_request-shape_example :
    ((lib.in_fn_code_map 3 ≡ true)
      × ((lib.call 3 (3 ∷ []) 0).0 ≡ returned (9 ∷ []))
      × (◌≡◌ {A = Bytes} (3 ∷ 9 ∷ []) (3 ∷ 9 ∷ [])))
    ⊎ ((code : ℕ) × (◌≡◌ {A = Bytes} (3 ∷ 9 ∷ []) ((3 + 128) ∷ code ∷ []))
        × (3 < 128)
        × (code < 256))
handle_request-shape_example = handle_request-shape lib 3 [] 0 (3 ∷ 9 ∷ []) handle_request-three

abbrev slaves : Dict ℕ ℕ
slaves = (1, 5) ∷ (255, 6) ∷ []

-- The byte behind the header names the slave.
abbrev parse_request : Bytes → Parsed
parse_request request = elim (drop 6 request) [ [] ↦ invalid | b ∷ bs ↦ parsed b bs ]

abbrev slave_request : Bytes → Bool → ℕ → Reply × ℕ
slave_request pdu broadcast s = handle_request lib pdu broadcast s

abbrev databank : Bytes → Dict ℕ ℕ → Outcome × Dict ℕ ℕ
databank = SlaveDb.handle_request parse_request (λ r. r) slave_request 4 tcp

fill-exact_example :
    (whole : Bytes) × (left : List Bytes) × (fill closes 9 8
        (0 ∷ 1 ∷ 0 ∷ 0 ∷ 0 ∷ 2 ∷ 255 ∷ [])
        ((3 ∷ 0 ∷ 2 ∷ []) ∷ [])
      ≡ filled whole left)
    × (length whole ≡ 8)
    × (whole ++ concat left ≡ 0 ∷ 1 ∷ 0 ∷ 0 ∷ 0 ∷ 2 ∷ 255 ∷ 3 ∷ 0 ∷ 2 ∷ [])
unfolding concat
fill-exact_example =
    fill-exact closes 9 8 (0 ∷ 1 ∷ 0 ∷ 0 ∷ 0 ∷ 2 ∷ 255 ∷ []) ((3 ∷ 0 ∷ 2 ∷ []) ∷ []) (omega arith)
      (omega arith) (omega arith)

-- One request to the slave 255, and then one to the slave 1, which ends the connection.
two_requests :
    handle databank falls_silent
      ((0 ∷ 1 ∷ 0 ∷ 0 ∷ 0 ∷ 3 ∷ 255 ∷ [])
        ∷ (3 ∷ 3 ∷ [])
        ∷ (0 ∷ 1 ∷ 0 ∷ 0 ∷ 0 ∷ 2 ∷ 1 ∷ 3 ∷ [])
        ∷ [])
      slaves
    ≡ (
      broke,
      record {
        slaves = (1, 5) ∷ (255, 7) ∷ [];
        sent = (3 ∷ 9 ∷ []) ∷ [];
        events =
            new_connection
            ∷ traffic (0 ∷ 1 ∷ 0 ∷ 0 ∷ 0 ∷ 3 ∷ 255 ∷ 3 ∷ 3 ∷ []) (sent (3 ∷ 9 ∷ []))
            ∷ traffic (0 ∷ 1 ∷ 0 ∷ 0 ∷ 0 ∷ 2 ∷ 1 ∷ 3 ∷ []) silent
            ∷ connection_terminated
            ∷ [];
      },
    )
unfolding handle SlaveDb.handle_request concat get handle_request put
two_requests = refl

handle-Finishes_example :
    Finishes
      (handle databank falls_silent
        ((0 ∷ 1 ∷ 0 ∷ 0 ∷ 0 ∷ 3 ∷ 255 ∷ []) ∷ (3 ∷ 3 ∷ []) ∷ [])
        slaves).0
handle-Finishes_example =
    handle-Finishes databank ((0 ∷ 1 ∷ 0 ∷ 0 ∷ 0 ∷ 3 ∷ 255 ∷ []) ∷ (3 ∷ 3 ∷ []) ∷ []) slaves

-- A header that comes in two pieces ends the connection.
header_in_pieces :
    (handle databank falls_silent ((0 ∷ 1 ∷ []) ∷ (0 ∷ 0 ∷ 0 ∷ 3 ∷ 255 ∷ 3 ∷ 3 ∷ []) ∷ []) slaves).0
    ≡ struct_error
unfolding handle concat
header_in_pieces = refl

-- A connection that is closed inside a request.
closed_inside : (handle databank closes ((0 ∷ 1 ∷ 0 ∷ 0 ∷ 0 ∷ 3 ∷ 255 ∷ []) ∷ []) slaves).0 ≡ waits
unfolding handle concat
closed_inside = refl
