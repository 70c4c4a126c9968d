-- ===== src/Modbus/Memory.antt =====
-- modbus_block_databus_mediator.py and `add_block` of slave.py. The block's size is the length of
-- the databus value, the parameter `value_length`, which is none where there is no such key. An address below 0 is refused by
-- `add_block` before anything else is looked at, and is left out.
pub mod Overlap
use conpot.Prelude.{
  ℕ, zero, suc, ◌+◌, Bool, true, false, not, Option, none, some, List, [], ◌∷◌, ◌++◌, length, ltb,
  leb, ◌==◌, if◌then◌else◌, nat_eq, list_eq,
}
use conpot.Prelude.Bytes.{Bytes}
use conpot.Prelude.Dict.{Dict, get, has, put}

-- `ModbusBlockDatabusMediator`
pub record Block : Type 0 where
  pub starting_address : ℕ
  pub databus_key : Bytes
  pub size : ℕ

-- `is_in`
unfoldable pub is_in : Block → ℕ → ℕ → Bool
is_in b starting_address size =
    if ltb b.starting_address starting_address
    then ltb starting_address (b.starting_address + b.size)
    else if ltb starting_address b.starting_address
    then ltb b.starting_address (starting_address + size)
    else true

-- The tables of a slave: `_blocks` by name, and `_memory` by the type of the block.
pub record Slave : Type 0 where
  pub blocks : Dict Bytes (ℕ × ℕ)
  pub memory : Dict ℕ (List Block)

pub data Error : Type 0 where
  invalid_argument duplicated_key invalid_block overlap : Error

-- The loop over the blocks of one type, from index `i` on: `none` is an overlap. It leaves at the
-- first block that begins behind the new one, and the index is 0 where it meets none.
unfoldable pub find_index : ℕ → List Block → ℕ → ℕ → Option ℕ
unfolding is_in
find_index i [] starting_address size = some 0
find_index i (b ∷ bs) starting_address size =
    let rest = find_index (i + 1) bs starting_address size in
    if is_in b starting_address size
    then none
    else if ltb starting_address b.starting_address
    then some i
    else rest

-- `list.insert`
abbrev pub insert {ℓ} : {A : Type ℓ} → ℕ → A → List A → List A
insert zero a xs = a ∷ xs
insert (suc n) a [] = a ∷ []
insert (suc n) a (x ∷ xs) = x ∷ insert n a xs

pub data Outcome : Type 0 where
  added : Slave → Outcome
  -- the mediator's `AssertionError`, for a name that is no key of the databus
  unknown_key : Slave → Outcome
  refused : Error → Outcome

-- The mediator that is put into the table: its size is that of the databus value.
abbrev pub mediator : Bytes → (starting_address value_size : ℕ) → Block
mediator block_name starting_address value_size = record {
  starting_address = starting_address;
  databus_key = block_name;
  size = value_size;
}

module _ (value_length : Bytes → Option ℕ) where
  -- What follows `self._blocks[block_name] = …`, which stays where the mediator raises.
  unfoldable pub insert_block : Bytes → ℕ → ℕ → ℕ → List Block → Slave → Outcome
  insert_block block_name block_type starting_address index blocks s =
      elim (value_length block_name) [
        | none ↦ unknown_key s
        | some value_size ↦ added (record s {
          memory =
              put block_type (insert index (mediator block_name starting_address value_size) blocks)
                s.memory;
        })
      ]

  -- `add_block` at an address that is not negative. A size of 0 stands for every size that is not
  -- positive.
  unfoldable pub add_block : Bytes → ℕ → ℕ → ℕ → Slave → Outcome
  unfolding find_index insert_block
  add_block block_name block_type starting_address size s =
      if size == 0
      then refused invalid_argument
      else if has block_name s.blocks
      then refused duplicated_key
      else elim (get block_type s.memory) [
        | none ↦ refused invalid_block
        | some blocks ↦ elim (find_index 0 blocks starting_address size) [
          | none ↦ refused overlap
          | some index ↦
              insert_block block_name block_type starting_address index blocks
                (record s { blocks = put block_name (block_type, starting_address) s.blocks })
        ]
      ]
