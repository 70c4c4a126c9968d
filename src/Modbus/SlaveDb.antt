-- ===== src/Modbus/SlaveDb.antt =====
-- slave_db.py: which slaves a request goes to. The query's `parse_request` and `build_response` are
-- the package modbus_tk's and parameters, as is a slave's own `handle_request`, which `Slave` models.
-- The log data are left out, but for the exception that they raise where there is no PDU.
pub mod Routing
use conpot.Prelude.{
  ℕ, ◌+◌, Bool, true, false, not, ◌&&◌, ◌||◌, Option, none, some, List, [], ◌∷◌, ltb, leb, ◌==◌,
  if◌then◌else◌, nat_eq,
}
use conpot.Prelude.Bytes.{Bytes}
use conpot.Prelude.Dict.{Dict, get, has, put}
use conpot.Modbus.Slave.{Raised, Reply, response, raised}

pub data Mode : Type 0 where
  tcp serial : Mode

-- What `parse_request` does: it returns the slave and the PDU, or raises `ModbusInvalidRequestError`.
pub data Parsed : Type 0 where
  parsed : ℕ → Bytes → Parsed
  invalid : Parsed

-- How `handle_request` ends: it sends a response or none, or an exception leaves it. `type_error`
-- is the sum of `None` and a number in the handler of a missing slave, and `attribute_error` the text
-- of a PDU that is `None`.
pub data Outcome : Type 0 where
  sent : Bytes → Outcome
  silent : Outcome
  uncaught : Raised → Outcome
  type_error struct_error attribute_error : Outcome

module _ {S : Type 0} (parse_request : Bytes → Parsed) (build_response : Bytes → Bytes)
    (slave_request : Bytes → Bool → S → Reply × S) (slave_device_failure : ℕ) where
  -- The handler of `MissingKeyError`.
  unfoldable pub missing_slave : Bytes → Outcome
  missing_slave [] = type_error
  missing_slave (func_code ∷ _) =
      if ltb (func_code + 0x80) 256
      then sent (build_response ((func_code + 0x80) ∷ slave_device_failure ∷ []))
      else struct_error

  -- A request for one slave: `ModbusInvalidRequestError` is logged, and nothing is sent.
  unfoldable pub to_slave : ℕ → Bytes → Dict ℕ S → Outcome × Dict ℕ S
  unfolding missing_slave
  to_slave slave_id request_pdu slaves = elim (get slave_id slaves) [
    | none ↦ (missing_slave request_pdu, slaves)
    | some s ↦
        let (reply, s') = slave_request request_pdu false s in
        (
          elim reply [
            | response r ↦ sent (build_response r)
            | raised Raised.invalid_request ↦ silent
            | raised e ↦ uncaught e
          ],
          put slave_id s' slaves,
        )
  ]

  -- The loop over all slaves of a broadcast.
  unfoldable pub to_all : Bytes → Dict ℕ S → Outcome × Dict ℕ S
  to_all request_pdu [] = (silent, [])
  to_all request_pdu ((k, s) ∷ slaves) =
      let (reply, s') = slave_request request_pdu true s in
      let (outcome, rest) = to_all request_pdu slaves in
      elim reply [
        | response r ↦ (outcome, (k, s') ∷ rest)
        | raised Raised.invalid_request ↦ (silent, (k, s') ∷ slaves)
        | raised e ↦ (uncaught e, (k, s') ∷ slaves)
      ]

  unfoldable pub route : Mode → ℕ → Bytes → Dict ℕ S → Outcome × Dict ℕ S
  unfolding to_slave to_all
  route tcp slave_id request_pdu slaves =
      if slave_id == 0 || slave_id == 255
      then to_slave slave_id request_pdu slaves
      else (silent, slaves)
  route serial slave_id request_pdu slaves =
      if slave_id == 0
      then to_all request_pdu slaves
      else if leb slave_id 247
      then to_slave slave_id request_pdu slaves
      else (silent, slaves)

  unfoldable pub handle_request : Mode → Bytes → Dict ℕ S → Outcome × Dict ℕ S
  unfolding route
  handle_request mode request slaves = elim (parse_request request) [
    | invalid ↦ (attribute_error, slaves)
    | parsed slave_id request_pdu ↦ route mode slave_id request_pdu slaves
  ]

-- `add_slave` at an id that is not negative; `none` is an exception.
unfoldable pub add_slave {ℓ} : {S : Type ℓ} → S → ℕ → Dict ℕ S → Option (Dict ℕ S)
add_slave new slave_id slaves =
    if ltb 255 slave_id
    then none
    else if has slave_id slaves
    then none
    else some (put slave_id new slaves)
