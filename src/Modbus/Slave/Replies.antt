-- ===== src/Modbus/Slave/Replies.antt =====
-- What a slave answers.
use conpot.Prelude.{
  ℕ, zero, suc, ◌+◌, ◌≤◌, ◌<◌, ◌≡◌, refl, ◌⊎◌, Bool, true, false, Option, none, some, List, [], ◌∷◌,
  ◌++◌, arith, length, take, drop, ltb, take-append_length, drop-append_length, append-nil,
}
use conpot.Prelude.Bytes.{Bytes, ok, pack_b-eq-ok}
use conpot.Modbus.Slave.{
  Library, response, raised, out_of_format, returned, handle_request, device_info,
}

module _ {S : Type 0} (lib : Library S) (function_code : ℕ) (arguments : Bytes) (s : S) where
  -- What a unicast response is: the function code with what the function returned, or the code with
  -- its high bit set and one byte of exception code.
  pub handle_request-shape :
      (r : Bytes)
      → (handle_request lib (function_code ∷ arguments) false s).0 ≡ response r
      → ((lib.in_fn_code_map function_code ≡ true)
          × ((lib.call function_code (function_code ∷ arguments) s).0 ≡ returned (drop 1 r))
          × (r ≡ function_code ∷ drop 1 r))
        ⊎ ((code : ℕ) × (r ≡ (function_code + 128) ∷ code ∷ [])
            × (function_code < 128)
            × (code < 256))
  unfolding handle_request
  handle_request-shape r h = grind arith

  -- A function code from 128 on that has no function, as an exception response has one, cannot be
  -- answered: the error response has no room for its code.
  handle_request-high :
      (broadcast : Bool)
      → 128 ≤ function_code
      → lib.in_fn_code_map function_code ≡ false
      → (handle_request lib (function_code ∷ arguments) broadcast s) ≡ (raised out_of_format, s)
  unfolding handle_request
  handle_request-high broadcast h unknown =
      let wide : ltb (function_code + 128) 256 ≡ false = ground arith in rw (unknown, wide)

-- The objects of a device information, as a client reads them.
pub read_objects : ℕ → Bytes → Option (List (ℕ × Bytes))
read_objects zero [] = some []
read_objects (suc n) (i ∷ size ∷ rest) = elim (read_objects n (drop size rest)) [
  | none ↦ none
  | some os ↦ some ((i, take size rest) ∷ os)
]
read_objects _ _ = none

read_object :
    (n i : ℕ) (xs rest : Bytes) (os : List (ℕ × Bytes))
    → read_objects n rest ≡ some os
    → read_objects (suc n) (i ∷ length xs ∷ (xs ++ rest)) ≡ some ((i, xs) ∷ os)
unfolding read_objects
read_object n i xs rest os h =
    rw (drop-append_length xs rest, read_objects)
      (rw (h, read_objects) (rw (take-append_length xs rest)))

-- The device information holds as many objects as it says, and these are read back as the vendor
-- name, the product code and the revision, if each fits its length byte.
device_info-read_objects :
    (vendor_name product_code revision : Bytes) (b0 b1 device object : ℕ) (rest : Bytes)
    → length vendor_name < 256
    → length product_code < 256
    → length revision < 256
    → (body : Bytes) × (device_info vendor_name product_code revision
          (b0 ∷ b1 ∷ device ∷ object ∷ rest)
        ≡ ok (0x0e ∷ device ∷ 0x01 ∷ 0x00 ∷ 0x00 ∷ 3 ∷ body))
      × (read_objects 3 body ≡ some ((0, vendor_name) ∷ (1, product_code) ∷ (2, revision) ∷ []))
unfolding device_info read_objects
device_info-read_objects v p r b0 b1 device object rest hv hp hr = (
  0 ∷ length v ∷ (v ++ (1 ∷ length p ∷ (p ++ (2 ∷ length r ∷ r)))),
  rw (pack_b-eq-ok (length v) hv, pack_b-eq-ok (length p) hp, pack_b-eq-ok (length r) hr) (refl),
  read_object 2 0 v (1 ∷ length p ∷ (p ++ (2 ∷ length r ∷ r))) _
      (read_object 1 1 p (2 ∷ length r ∷ r) _ last_object),
)
  where
    last_object : read_objects 1 (2 ∷ length r ∷ r) ≡ some ((2, r) ∷ [])
    last_object = rw append-nil at (read_object 0 2 r [] [] refl)
