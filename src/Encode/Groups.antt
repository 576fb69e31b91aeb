-- ===== src/Encode/Groups.antt =====
-- The loops over the elements write what the wire format puts there.
use teltonika.Prelude.{
  ℕ, suc, ◌+◌, ◌≤◌, ◌≡◌, refl, sym, ap, ◌∙◌, arith, List, [], ◌∷◌, ◌++◌, append_assoc, append-nil,
  length, take, drop, length-append, length-take, length-drop, ok, ◌==◌, Bool-cases, inl, inr,
}
use teltonika.Bytes.{store, be16}
use teltonika.Packet.{IoElement}
use teltonika.Encode.Elements.{
  Cursor, is_group_width, encode_entry, encode_entries, encode_groups, encode_entry_nx,
  encode_entries_nx,
}
use teltonika.Encode.Writes.{onto, store-onto, copy_at-onto, store_back, onto_skip}
use teltonika.Wire.{of_width, of_other_width, entries_code, entries_nx_code, groups_code}

-- The cursor behind the bytes `done`.
abbrev pub at : List ℕ → ℕ → List ℕ → Cursor
at done written buf = record { pos = length done; written = written; buf = onto done buf }

-- A cursor over equal bytes.
at-path :
    (done done' : List ℕ) (n n' : ℕ) (buf : List ℕ)
    → done ≡ done'
    → n ≡ n'
    → at done n buf ≡ at done' n' buf
at-path done done' n n' buf p q = rw (p, q)

module _ (id_code : ℕ → List ℕ) where
  encode_entry-at :
      (e : IoElement) (done : List ℕ) (n : ℕ) (buf : List ℕ)
      → length done + length (id_code e.id ++ e.value) ≤ length buf
      → encode_entry id_code e (at done n buf)
        ≡ ok (at (done ++ (id_code e.id ++ e.value)) (n + 1) buf)
  unfolding encode_entry
  encode_entry-at e done n buf h =
      let c = id_code e.id in
      let sum = length-append c e.value in
      let split = length-append done c in
      let end : length done + length c + length e.value ≡ length (done ++ (c ++ e.value)) =
        omega (arith, sum, length-append done (c ++ e.value)) in
      rw (
        store-onto done c buf (length done) refl (omega arith),
        copy_at-onto (done ++ c) e.value buf (length done + length c) (sym split) (omega arith),
        append_assoc done c e.value,
        end,
      )

  encode_entries-at :
      (width : ℕ) (es : List IoElement) (done : List ℕ) (n : ℕ) (buf : List ℕ)
      → length done + length (entries_code id_code (of_width width es)) ≤ length buf
      → encode_entries id_code width es (at done n buf)
        ≡ ok (
            at
              (done ++ entries_code id_code (of_width width es))
              (n + length (of_width width es))
              buf)
  unfolding encode_entries entries_code of_width
  encode_entries-at width [] done n buf h =
      let z : n + 0 ≡ n = omega arith in rw (append-nil done, z)
  encode_entries-at width (e ∷ es) done n buf h = elim (Bool-cases (length e.value == width)) [
    | inl same ↦
        let c = id_code e.id ++ e.value in
        let code = entries_code id_code (of_width width es) in
        let room : length done + length (id_code e.id ++ (e.value ++ code)) ≤ length buf =
          rw same at h in
        let sum = length-append c code in
        let whole : c ++ code ≡ id_code e.id ++ (e.value ++ code) =
          append_assoc (id_code e.id) e.value code in
        let len = ap length whole in
        let count : n + 1 + length (of_width width es) ≡ n + suc (length (of_width width es)) =
          omega arith in
        rw (
          same,
          encode_entry-at e done n buf (omega arith),
          encode_entries-at width es (done ++ c) (n + 1) buf (omega (arith, length-append done c)),
          append_assoc done c code,
          whole,
          count,
        )
    | inr other ↦ let room = rw other at h in rw other (encode_entries-at width es done n buf room)
  ]

  module _ (count_code : ℕ → List ℕ)
      (count_size : (n : ℕ) → length (count_code n) ≡ length (count_code 0)) where
    -- The place of the count is left open.
    pub skip_count :
        (done buf : List ℕ) (k : ℕ)
        → length done + k ≤ length buf
        → (length (take k (drop (length done) buf)) ≡ k)
          × (record { pos = length done + k; written = 0; buf = onto done buf }
              ≡ at (done ++ take k (drop (length done) buf)) 0 buf)
    skip_count done buf k h =
        let gap = take k (drop (length done) buf) in
        let size : length gap ≡ k =
          omega (arith, length-take k (drop (length done) buf), length-drop (length done) buf) in
        let end : length done + k ≡ length (done ++ gap) = omega (arith, length-append done gap) in
        (size, λ i. record { pos = end i; written = 0; buf = sym (onto_skip done buf k) i })

    -- The count is filled in behind the entries.
    pub fill_count :
        (done gap code buf : List ℕ) (n : ℕ)
        → length gap ≡ length (count_code 0)
        → store (length done) (count_code n) (onto ((done ++ gap) ++ code) buf)
          ≡ ok (onto (done ++ (count_code n ++ code)) buf)
    fill_count done gap code buf n h =
        rw (append_assoc done gap code)
          (store_back done gap code (count_code n) buf (length done) refl (h ∙ sym (count_size n)))

    pub encode_groups-onto :
        (widths : List ℕ) (es : List IoElement) (done buf : List ℕ)
        → length done + length (groups_code count_code id_code widths es) ≤ length buf
        → encode_groups count_code id_code widths es (length done) (onto done buf)
          ≡ ok (
            length (done ++ groups_code count_code id_code widths es),
            onto (done ++ groups_code count_code id_code widths es) buf,
          )
    unfolding encode_groups groups_code
    encode_groups-onto [] es done buf h = rw (append-nil done)
    encode_groups-onto (width ∷ widths) es done buf h =
        let n = length (of_width width es) in
        let code = entries_code id_code (of_width width es) in
        let rest = groups_code count_code id_code widths es in
        let k = length (count_code 0) in
        let gap = take k (drop (length done) buf) in
        let done' = done ++ (count_code n ++ code) in
        let l₁ = length-append (count_code n) (code ++ rest) in
        let l₂ = length-append code rest in
        let l₃ = count_size n in
        let (size, skipped) = skip_count done buf k (omega arith) in
        let l₄ = length-append done gap in
        let l₅ = length-append (done ++ gap) code in
        let l₆ = length-append done (count_code n ++ code) in
        let l₇ = length-append (count_code n) code in
        let pos : length ((done ++ gap) ++ code) ≡ length done' = omega arith in
        let whole : done' ++ rest ≡ done ++ (count_code n ++ (code ++ rest)) =
          append_assoc done (count_code n ++ code) rest
          ∙ ap (λ t. done ++ t) (append_assoc (count_code n) code rest) in
        let counted : 0 + n ≡ n = omega arith in
        rw (
          skipped,
          encode_entries-at width es (done ++ gap) 0 buf (omega arith),
          counted,
          fill_count done gap code buf n size,
          pos,
          encode_groups-onto widths es done' buf (omega arith),
          whole,
        )

abbrev nx_code : IoElement → List ℕ
nx_code e = be16 e.id ++ (be16 (length e.value) ++ e.value)

encode_entry_nx-at :
    (e : IoElement) (done : List ℕ) (n : ℕ) (buf : List ℕ)
    → length done + length (nx_code e) ≤ length buf
    → encode_entry_nx e (at done n buf) ≡ ok (at (done ++ nx_code e) (n + 1) buf)
unfolding encode_entry_nx
encode_entry_nx-at e done n buf h =
    let id = be16 e.id in
    let len = be16 (length e.value) in
    let l₁ = length-append done id in
    let l₂ = length-append (done ++ id) len in
    let l₃ = length-append done (nx_code e) in
    let end : length done + 4 + length e.value ≡ length (done ++ nx_code e) = omega arith in
    let whole : ((done ++ id) ++ len) ++ e.value ≡ done ++ nx_code e =
      append_assoc (done ++ id) len e.value ∙ append_assoc done id (len ++ e.value) in
    rw (
      store-onto done id buf (length done) refl (omega arith),
      store-onto (done ++ id) len buf (length done + 2) (omega arith) (omega arith),
      copy_at-onto ((done ++ id) ++ len) e.value buf (length done + 4) (omega arith) (omega arith),
      whole,
      end,
    )

-- The last loop of codec 8 extended.
pub encode_entries_nx-at :
    (es : List IoElement) (done : List ℕ) (n : ℕ) (buf : List ℕ)
    → length done + length (entries_nx_code (of_other_width es)) ≤ length buf
    → encode_entries_nx es (at done n buf)
      ≡ ok (at (done ++ entries_nx_code (of_other_width es)) (n + length (of_other_width es)) buf)
unfolding encode_entries_nx entries_nx_code of_other_width
encode_entries_nx-at [] done n buf h = let z : n + 0 ≡ n = omega arith in rw (append-nil done, z)
encode_entries_nx-at (e ∷ es) done n buf h = elim (Bool-cases (is_group_width (length e.value))) [
  | inl grouped ↦ rw grouped (encode_entries_nx-at es done n buf (rw grouped at h))
  | inr other ↦
      let c = nx_code e in
      let code = entries_nx_code (of_other_width es) in
      let id = be16 e.id in
      let len = be16 (length e.value) in
      let room : length done + length (id ++ (len ++ (e.value ++ code))) ≤ length buf =
        rw other at h in
      let l₁ = length-append e.value code in
      let l₂ = length-append done c in
      let whole : c ++ code ≡ id ++ (len ++ (e.value ++ code)) = refl in
      let count : n + 1 + length (of_other_width es) ≡ n + suc (length (of_other_width es)) =
        omega arith in
      rw (
        other,
        encode_entry_nx-at e done n buf (omega arith),
        encode_entries_nx-at es (done ++ c) (n + 1) buf (omega arith),
        append_assoc done c code,
        count,
      )
]
