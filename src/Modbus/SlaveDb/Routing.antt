-- ===== src/Modbus/SlaveDb/Routing.antt =====
-- Which slaves a request reaches.
use conpot.Prelude.{ℕ, ◌≤◌, ◌≡◌, ◌≢◌, Bool, Option-cases, arith, nat_eq, inl, inr, ◌⊎◌}
use conpot.Prelude.Bytes.{Bytes}
use conpot.Prelude.Dict.{Dict, get, get-put}
use conpot.Modbus.Slave.{Reply}
use conpot.Modbus.SlaveDb.{Mode, tcp, serial, Parsed, parsed, to_slave, handle_request}

-- The slaves that a request for `slave_id` may change.
abbrev pub Reaches : Mode → ℕ → ℕ → Type 0
Reaches tcp slave_id k = (k ≡ slave_id) × ((slave_id ≡ 0) ⊎ (slave_id ≡ 255))
Reaches serial slave_id k = (slave_id ≡ 0) ⊎ ((k ≡ slave_id) × (slave_id ≤ 247))

module _ {S : Type 0} (parse_request : Bytes → Parsed) (build_response : Bytes → Bytes)
    (slave_request : Bytes → Bool → S → Reply × S) (slave_device_failure : ℕ) where
  to_slave-ne :
      (slave_id k : ℕ) (pdu : Bytes) (slaves : Dict ℕ S)
      → k ≢ slave_id
      → get k
          (to_slave parse_request build_response slave_request slave_device_failure slave_id pdu
            slaves).1
        ≡ get k slaves
  unfolding to_slave
  to_slave-ne slave_id k pdu slaves ne = elim (Option-cases (get slave_id slaves)) [
    | inl missing ↦ rw (missing, to_slave)
    | inr (s, found) ↦ rw (found, to_slave) (rw get-put (ground arith))
  ]

  -- A request leaves the state of a slave that it does not reach as it was: over TCP only the slaves
  -- 0 and 255 are reached, each by its own id; on a serial line 0 reaches every slave, and the ids
  -- up to 247 the slave of that id.
  handle_request-unreached :
      (mode : Mode) (request pdu : Bytes) (slave_id k : ℕ) (slaves : Dict ℕ S)
      → parse_request request ≡ parsed slave_id pdu
      → ¬ (Reaches mode slave_id k)
      → get k
          (handle_request parse_request build_response slave_request slave_device_failure mode
            request slaves).1
        ≡ get k slaves
  unfolding handle_request
  handle_request-unreached tcp request pdu slave_id k slaves p h =
      rw (p, handle_request) (ground (arith, to_slave-ne slave_id k pdu slaves))
  handle_request-unreached serial request pdu slave_id k slaves p h =
      rw (p, handle_request) (ground (arith, to_slave-ne slave_id k pdu slaves))
