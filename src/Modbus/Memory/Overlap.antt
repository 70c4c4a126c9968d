-- ===== src/Modbus/Memory/Overlap.antt =====
-- The overlap test against the addresses that blocks hold, and what `add_block` keeps.
use conpot.Prelude.{
  ℕ, ◌+◌, ◌≤◌, ◌<◌, ◌≡◌, ap, ◌∙◌, inl, inr, Bool-cases, Option-cases, ==_refl, ◌↔◌, ◌⊎◌, true,
  false, Option, some, List, [], ◌∷◌, arith, ltb, ◌==◌, list_eq, if◌then◌else◌, nat_eq,
}
use conpot.Prelude.Bytes.{Bytes}
use conpot.Prelude.Dict.{get, has, put, get-put, has-get, beq_refl}
use conpot.Modbus.Memory.{
  Block, is_in, Slave, find_index, mediator, insert, added, unknown_key, refused, duplicated_key,
  insert_block, add_block,
}

-- The block holds the address.
abbrev pub Holds : Block → ℕ → Type 0
Holds b a = (b.starting_address ≤ a) × (a < b.starting_address + b.size)

-- A block and a range of addresses, neither of them empty, are told to overlap exactly if they
-- have an address in common.
pub is_in_iff :
    (b : Block) (starting_address size : ℕ)
    → 0 < size
    → 0 < b.size
    → (is_in b starting_address size ≡ true)
      ↔ ((a : ℕ) × Holds b a × ((starting_address ≤ a) × (a < starting_address + size)))
unfolding is_in
is_in_iff b starting_address size h k = (
  λ e. (common b.starting_address starting_address, ground arith, ground arith),
  λ w. ground (arith, w.1.0, w.1.1, w.2.0, w.2.1),
)
  where
    common : ℕ → ℕ → ℕ
    common a b = if ltb a b then b else a

-- The range has no address in common with any block of the list.
abbrev pub Free : ℕ → ℕ → List Block → Type 0
Free starting_address size [] = Unit
Free starting_address size (b ∷ bs) =
    ((starting_address + size ≤ b.starting_address)
      ⊎ (b.starting_address + b.size ≤ starting_address))
    × Free starting_address size bs

-- No block of the list begins behind the address.
abbrev pub NoneBehind : ℕ → List Block → Type 0
NoneBehind starting_address [] = Unit
NoneBehind starting_address (b ∷ bs) =
    (b.starting_address ≤ starting_address) × NoneBehind starting_address bs

-- Where no block begins behind the new one, the loop looks at every block.
pub find_index-Free :
    (i : ℕ) (bs : List Block) (starting_address size index : ℕ)
    → NoneBehind starting_address bs
    → find_index i bs starting_address size ≡ some index
    → (index ≡ 0) × Free starting_address size bs
unfolding find_index is_in
find_index-Free i [] starting_address size index n h = (ground arith, tt)
find_index-Free i (b ∷ bs) starting_address size index n h =
    ground (arith, find_index-Free (i + 1) bs starting_address size index n.1, n.0)

Free-le : (a n size : ℕ) (bs : List Block) → n ≤ size → Free a size bs → Free a n bs
Free-le a n size [] h f = tt
Free-le a n size (b ∷ bs) h f = (ground (arith, f.0), Free-le a n size bs h f.1)

unknown_key-injective : {s s' : Slave} → unknown_key s ≡ unknown_key s' → s' ≡ s
unknown_key-injective h = cc

memory_of : {s s' : Slave} → added s ≡ added s' → s'.memory ≡ s.memory
memory_of h = cc

module _ (value_length : Bytes → Option ℕ) (name : Bytes) (block_type starting_address size : ℕ)
    (s : Slave) where
  insert_block-added :
      (index : ℕ) (bs : List Block) (t s' : Slave)
      → insert_block value_length name block_type starting_address index bs t ≡ added s'
      → (n : ℕ) × (value_length name ≡ some n)
        × (s'.memory ≡ put block_type (insert index (mediator name starting_address n) bs) t.memory)
  unfolding insert_block
  insert_block-added index bs t s' h = elim (Option-cases (value_length name)) [
    | inl missing ↦ cc (rw (missing, insert_block) at h)
    | inr (n, found) ↦ (n, found, memory_of (rw (found, insert_block) at h))
  ]

  -- What a block that is added does to the table of its type.
  add_block-added :
      (s' : Slave) (bs : List Block)
      → get block_type s.memory ≡ some bs
      → add_block value_length name block_type starting_address size s ≡ added s'
      → (index : ℕ) × (n : ℕ) × (find_index 0 bs starting_address size ≡ some index)
        × (value_length name ≡ some n)
        × (s'.memory ≡ put block_type (insert index (mediator name starting_address n) bs) s.memory)
  unfolding add_block
  add_block-added s' bs found h = elim (Bool-cases (size == 0)) [
    | inl z ↦ cc (rw z at h)
    | inr z ↦ elim (Bool-cases (has name s.blocks)) [
      | inl old ↦ cc (rw (z, old) at h)
      | inr new ↦ elim (Option-cases (find_index 0 bs starting_address size)) [
        | inl no_index ↦
            cc (rw (no_index, add_block) at (rw (found, add_block) at (rw (z, new) at h)))
        | inr (index, e) ↦
            let (n, known, table) =
              insert_block-added index bs
                (record s { blocks = put name (block_type, starting_address) s.blocks }) s'
                (rw (e, add_block) at (rw (found, add_block) at (rw (z, new) at h))) in
            (index, n, e, known, table)
      ]
    ]
  ]

  -- An added block stands in front of the blocks of its type with the size of its databus value, and
  -- shares no address with them, if none of them begins behind it and that value is not longer than
  -- the size that was asked for.
  pub add_block-Free :
      (s' : Slave) (bs : List Block) (n : ℕ)
      → get block_type s.memory ≡ some bs
      → NoneBehind starting_address bs
      → value_length name ≡ some n
      → n ≤ size
      → add_block value_length name block_type starting_address size s ≡ added s'
      → (get block_type s'.memory ≡ some (mediator name starting_address n ∷ bs))
        × Free starting_address n bs
  add_block-Free s' bs n found behind known fits h =
      let (index, m, at_index, same, table) = add_block-added s' bs found h in
      let (first, free) = find_index-Free 0 bs starting_address size index behind at_index in
      let m≡n : m ≡ n = cc (same, known) in
      (
        ap (get block_type) table ∙ rw (first, m≡n) (rw (get-put, ==_refl)),
        Free-le starting_address n size bs fits free,
      )

  insert_block-unknown_key :
      (index : ℕ) (bs : List Block) (t s' : Slave)
      → insert_block value_length name block_type starting_address index bs t ≡ unknown_key s'
      → s' ≡ t
  unfolding insert_block
  insert_block-unknown_key index bs t s' h = elim (Option-cases (value_length name)) [
    | inl missing ↦ unknown_key-injective (rw (missing, insert_block) at h)
    | inr (n, found) ↦ cc (rw (found, insert_block) at h)
  ]

  -- What `add_block` leaves where the mediator raises.
  add_block-unknown_key :
      (s' : Slave)
      → add_block value_length name block_type starting_address size s ≡ unknown_key s'
      → s' ≡ record s { blocks = put name (block_type, starting_address) s.blocks }
  unfolding add_block
  add_block-unknown_key s' h = elim (Bool-cases (size == 0)) [
    | inl z ↦ cc (rw z at h)
    | inr z ↦ elim (Bool-cases (has name s.blocks)) [
      | inl old ↦ cc (rw (z, old) at h)
      | inr new ↦ elim (Option-cases (get block_type s.memory)) [
        | inl no_type ↦ cc (rw (no_type, add_block) at (rw (z, new) at h))
        | inr (bs, found) ↦ elim (Option-cases (find_index 0 bs starting_address size)) [
          | inl no_index ↦
              cc (rw (no_index, add_block) at (rw (found, add_block) at (rw (z, new) at h)))
          | inr (index, e) ↦
              insert_block-unknown_key index bs
                (record s { blocks = put name (block_type, starting_address) s.blocks }) s'
                (rw (e, add_block) at (rw (found, add_block) at (rw (z, new) at h)))
        ]
      ]
    ]
  ]

  -- Where the databus has no value for a block, `add_block` raises with the tables of memory as they were,
  -- but the name stays registered: every later attempt with that name and a positive size is refused as
  -- a duplicate, at whatever type and address, and whatever the databus holds by then.
  pub add_block-add_block :
      (s' : Slave) (later : Bytes → Option ℕ) (other_type other_address other_size : ℕ)
      → add_block value_length name block_type starting_address size s ≡ unknown_key s'
      → 0 < other_size
      → (s'.memory ≡ s.memory)
        × (add_block later name other_type other_address other_size s' ≡ refused duplicated_key)
  unfolding add_block
  add_block-add_block s' later other_type other_address other_size h positive =
      let e = add_block-unknown_key s' h in
      let some_size : (other_size == 0) ≡ false = ground arith in
      let taken : has name s'.blocks ≡ true =
        ap (λ (t : Slave). has name t.blocks) e
        ∙ has-get name (block_type, starting_address)
            (put name (block_type, starting_address) s.blocks)
            (get-put name name (block_type, starting_address) s.blocks ∙ rw (beq_refl name)) in
      (ap (λ (t : Slave). t.memory) e, rw (some_size, taken))
