-- ===== src/S7comm/S7/Diagnostics/Sizes.antt =====
-- The sizes of the answers, and the requests that never get one.
use conpot.Prelude.{
  ℕ, suc, ◌+◌, ◌-◌, ◌≤◌, ◌≡◌, ◌≢◌, sym, List, [], ◌==◌, ==_iff, Bool-cases, if◌then◌else◌, ap, ap₂,
  ◌∙◌, refl, ◌⊎◌, inl, inr, Option, none, some, ◌∷◌, ◌++◌, arith, length, length-append,
  length-take, length-replicate, replicate,
}
use conpot.Prelude.Bytes.{
  Bytes, codes, struct_error, pack_h, >>=-ok, ok-injective, Result, ok, err, ◌>>=◌,
}
use conpot.Prelude.Dict.{Dict}
use conpot.S7comm.S7.Diagnostics.{
  at_key, ssl_value, fixed, with_head, Field, short, string, Argument, number, text, pack_field,
  pack_fields, identification_format, identification_fields, identification, module_data,
  request_ssl_17, request_ssl_28,
}

length-fixed : (n : ℕ) (s : Bytes) → length (fixed n s) ≡ n
unfolding fixed
length-fixed n s = omega (
  arith,
  length-take n (s ++ replicate n 0),
  length-append s (replicate n 0),
  length-replicate {A = ℕ} n 0,
)

length-with_head :
    (ssl_resp_data d : Bytes) → with_head ssl_resp_data ≡ ok d → length d ≡ 4 + length ssl_resp_data
unfolding with_head
length-with_head ssl_resp_data d h = ground arith

abbrev index_bytes : Option ℕ → Result Bytes
index_bytes index = elim index [ none ↦ err struct_error | some i ↦ pack_h i ]

length-index_bytes : (index : Option ℕ) (i : Bytes) → index_bytes index ≡ ok i → length i ≡ 2
length-index_bytes index i h = ground arith

joined : (xs ys : Bytes) (a b : ℕ) → length xs ≡ a → length ys ≡ b → length (xs ++ ys) ≡ a + b
joined xs ys a b p q = length-append xs ys ∙ ap₂ ◌+◌ p q

field_size : Field → ℕ
field_size short = 2
field_size (string n) = n

format_size : List Field → ℕ
unfolding field_size
format_size [] = 0
format_size (field ∷ fields) = field_size field + format_size fields

length-pack_field :
    (field : Field) (a : Argument) (d : Bytes)
    → pack_field field a ≡ ok d
    → length d ≡ field_size field
unfolding pack_field field_size
length-pack_field short (number n) d h = ground arith
length-pack_field (string n) (text t) d h = rw (← ok-injective h) (length-fixed n t)
length-pack_field short (text t) d h = cc
length-pack_field (string n) (number m) d h = cc

-- What a format makes has the size of the format.
length-pack_fields :
    (fields : List Field) (arguments : List Argument) (d : Bytes)
    → pack_fields fields arguments ≡ ok d
    → length d ≡ format_size fields
unfolding pack_fields format_size
length-pack_fields [] [] d h = rw (← ok-injective h) refl
length-pack_fields [] (a ∷ arguments) d h = cc
length-pack_fields (field ∷ fields) [] d h = cc
length-pack_fields (field ∷ fields) (a ∷ arguments) d h =
    let (first, packed, h1) = >>=-ok (pack_field field a) h in
    let (rest, others, h2) = >>=-ok (pack_fields fields arguments) h1 in
    rw (← ok-injective h2) (
      joined first rest (field_size field) (format_size fields)
        (length-pack_field field a first packed) (length-pack_fields fields arguments rest others))

length-identification :
    (index : ℕ) (mlfb state rest : Argument) (d : Bytes)
    → identification index mlfb state rest ≡ ok d
    → length d ≡ 40
unfolding identification format_size field_size
length-identification index mlfb state rest d h =
    let fields = identification_fields index mlfb state rest in
    let (ssl_resp_data, packed, headed) =
      >>=-ok {step = with_head} (pack_fields identification_format fields) h in
    length-with_head ssl_resp_data d headed
    ∙ ap (λ (n : ℕ). 4 + n) (length-pack_fields identification_format fields ssl_resp_data packed)

-- `H` takes no text.
identification-text_6 :
    (mlfb d : Bytes) → identification 6 (text mlfb) (text (codes "V3")) (number 0x539) ≢ ok d
unfolding identification pack_fields
identification-text_6 mlfb d h = cc

identification-text_7 :
    (d : Bytes) → identification 7 (number 0) (text (codes "V3")) (number 0x53a) ≢ ok d
unfolding identification pack_fields
identification-text_7 d h = cc

module _ (ssl_lists : Dict Bytes (Dict Bytes Bytes)) (get_value : Bytes → Result Bytes) where
  abbrev answer_17 : ℕ → Dict Bytes Bytes → Result Bytes
  answer_17 index current_ssl =
      if index == 1
      then (do
        mlfb ← ssl_value ssl_lists get_value current_ssl (codes "W#16#0001")
        identification 1 (text mlfb) (number 0) (number 0))
      else if index == 6
      then (do
        mlfb ← ssl_value ssl_lists get_value current_ssl (codes "W#16#0006")
        identification 6 (text mlfb) (text (codes "V3")) (number 0x539))
      else if index == 7
      then identification 7 (number 0) (text (codes "V3")) (number 0x53a)
      else ok []

  -- Which requests for the list 17 are answered, whatever the template and the databus hold: the
  -- component identification (1) with 40 bytes, and an index without one with none. Requests for the
  -- hardware (6) and the firmware (7) identification always raise.
  pub request_ssl_17-answers :
      (index : ℕ) (d : Bytes)
      → request_ssl_17 ssl_lists get_value (some index) ≡ ok d
      → ((index ≡ 1) × (length d ≡ 40)) ⊎ ((index ≢ 1) × (index ≢ 6) × (index ≢ 7) × (d ≡ []))
  unfolding request_ssl_17
  request_ssl_17-answers index d h =
      let (current_ssl, list, h1) =
        >>=-ok {step = answer_17 index} (at_key (codes "W#16#xy11") ssl_lists) h in
      answered current_ssl h1
    where
      answered :
          (current_ssl : Dict Bytes Bytes)
          → answer_17 index current_ssl ≡ ok d
          → ((index ≡ 1) × (length d ≡ 40)) ⊎ ((index ≢ 1) × (index ≢ 6) × (index ≢ 7) × (d ≡ []))
      answered current_ssl h1 = elim (Bool-cases (index == 1)) [
        | inl one ↦
            let (mlfb, asked, made) =
              >>=-ok {step = λ v. identification 1 (text v) (number 0) (number 0)}
                (ssl_value ssl_lists get_value current_ssl (codes "W#16#0001")) (rw one at h1) in
            inl (
              (==_iff index 1).0 one,
              length-identification 1 (text mlfb) (number 0) (number 0) d made,
            )
        | inr not_one ↦ elim (Bool-cases (index == 6)) [
          | inl six ↦
              let (mlfb, asked, made) =
                >>=-ok {step = λ v. identification 6 (text v) (text (codes "V3")) (number 0x539)}
                  (ssl_value ssl_lists get_value current_ssl (codes "W#16#0006"))
                  (rw (not_one, six) at h1) in
              absurd (identification-text_6 mlfb d made)
          | inr not_six ↦ elim (Bool-cases (index == 7)) [
            | inl seven ↦ absurd (identification-text_7 d (rw (not_one, not_six, seven) at h1))
            | inr not_seven ↦ inr (
              ground arith,
              ground arith,
              ground arith,
              sym (ok-injective (rw (not_one, not_six, not_seven) at h1)),
            )
          ]
        ]
      ]

  length-module_data :
      (current_ssl : Dict Bytes Bytes) (index : ℕ) (item : Bytes) (size : ℕ) (d : Bytes)
      → size ≤ 32
      → module_data ssl_lists get_value current_ssl index item size ≡ ok d
      → length d ≡ 34
  unfolding module_data
  length-module_data current_ssl index item size d h e =
      sized (ssl_value ssl_lists get_value current_ssl item) e
    where
      sized :
          (x : Result Bytes)
          → (x >>= λ v. ok (0 ∷ index ∷ (fixed size v ++ replicate (32 - size) 0))) ≡ ok d
          → length d ≡ 34
      sized (err k) q = cc
      sized (ok v) q = rw (← ok-injective q) (
          omega (
            arith,
            length-append (fixed size v) (replicate (32 - size) 0),
            length-fixed size v,
            length-replicate {A = ℕ} (32 - size) 0,
          ))

  -- Whatever texts the databus holds, the answer to a request for the list 28 has 284 bytes of data.
  length-request_ssl_28 :
      (index : Option ℕ) (d : Bytes)
      → request_ssl_28 ssl_lists get_value index ≡ ok d
      → length d ≡ 284
  unfolding request_ssl_28
  length-request_ssl_28 index d h =
      let (lists, found, h0) = >>=-ok (at_key (codes "W#16#xy1C") ssl_lists) h in
      let (i, packed, h1) = >>=-ok (index_bytes index) h0 in
      let (d1, r1, s1) =
        >>=-ok (module_data ssl_lists get_value lists 0x01 (codes "W#16#0001") 24) h1 in
      let (d2, r2, s2) =
        >>=-ok (module_data ssl_lists get_value lists 0x02 (codes "W#16#0002") 24) s1 in
      let (d3, r3, s3) =
        >>=-ok (module_data ssl_lists get_value lists 0x03 (codes "W#16#0003") 32) s2 in
      let (d4, r4, s4) =
        >>=-ok (module_data ssl_lists get_value lists 0x04 (codes "W#16#0004") 26) s3 in
      let (d5, r5, s5) =
        >>=-ok (module_data ssl_lists get_value lists 0x05 (codes "W#16#0005") 24) s4 in
      let (d7, r7, s7) =
        >>=-ok (module_data ssl_lists get_value lists 0x07 (codes "W#16#0007") 32) s5 in
      let (da, ra, sa) =
        >>=-ok (module_data ssl_lists get_value lists 0x0a (codes "W#16#000A") 20) s7 in
      let (db, rb, sb) =
        >>=-ok (module_data ssl_lists get_value lists 0x0b (codes "W#16#000B") 32) sa in
      let records : length (d1 ++ (d2 ++ (d3 ++ (d4 ++ (d5 ++ (d7 ++ (da ++ db))))))) ≡ 272 =
        joined d1 (d2 ++ (d3 ++ (d4 ++ (d5 ++ (d7 ++ (da ++ db)))))) 34 238
          (length-module_data lists 0x01 (codes "W#16#0001") 24 d1 (omega arith) r1)
          (joined d2 (d3 ++ (d4 ++ (d5 ++ (d7 ++ (da ++ db))))) 34 204
            (length-module_data lists 0x02 (codes "W#16#0002") 24 d2 (omega arith) r2)
            (joined d3 (d4 ++ (d5 ++ (d7 ++ (da ++ db)))) 34 170
              (length-module_data lists 0x03 (codes "W#16#0003") 32 d3 (omega arith) r3)
              (joined d4 (d5 ++ (d7 ++ (da ++ db))) 34 136
                (length-module_data lists 0x04 (codes "W#16#0004") 26 d4 (omega arith) r4)
                (joined d5 (d7 ++ (da ++ db)) 34 102
                  (length-module_data lists 0x05 (codes "W#16#0005") 24 d5 (omega arith) r5)
                  (joined d7 (da ++ db) 34 68
                    (length-module_data lists 0x07 (codes "W#16#0007") 32 d7 (omega arith) r7)
                    (joined da db 34 34
                      (length-module_data lists 0x0a (codes "W#16#000A") 20 da (omega arith) ra)
                      (length-module_data lists 0x0b (codes "W#16#000B") 32 db (omega arith)
                        rb))))))) in
      let body : length
            (i ++ (0 ∷ 34 ∷ 0 ∷ 8 ∷ (d1 ++ (d2 ++ (d3 ++ (d4 ++ (d5 ++ (d7 ++ (da ++ db)))))))))
          ≡ 278 =
        joined i (0 ∷ 34 ∷ 0 ∷ 8 ∷ (d1 ++ (d2 ++ (d3 ++ (d4 ++ (d5 ++ (d7 ++ (da ++ db)))))))) 2 276
          (length-index_bytes index i packed) (ap (λ (n : ℕ). suc (suc (suc (suc n)))) records) in
      length-with_head
        (0
          ∷ 28
          ∷ (i ++ (0 ∷ 34 ∷ 0 ∷ 8 ∷ (d1 ++ (d2 ++ (d3 ++ (d4 ++ (d5 ++ (d7 ++ (da ++ db))))))))))
        d sb
      ∙ ap (λ (n : ℕ). 4 + suc (suc n)) body
