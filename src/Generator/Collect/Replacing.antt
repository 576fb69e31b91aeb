-- ===== src/Generator/Collect/Replacing.antt =====
-- tools/io_elements_gen.go: the replacement of definitions by one that is taken in.
use teltonika.Prelude.{
  ℕ, suc, ◌+◌, ◌≡◌, refl, sym, ◌∙◌, arith, Bool, true, List, [], ◌∷◌, ◌++◌, append_assoc, length,
  length-append, drop, take-length_append, leb, le→leb, All, ok,
}
use teltonika.IoElements.{Text, IoElementDefinition}
use teltonika.Generator.{Float}
use teltonika.Generator.Collect.{
  skips, replaces, delete_at, delete_all, finished, passed, verdict, scan, round, replaced,
  on_definition,
}

drop_next : {A : Type 0} (xs ys : List A) (x : A) → drop (length xs + 1) (xs ++ x ∷ ys) ≡ ys
drop_next [] ys x = refl
drop_next (z ∷ zs) ys x =
    let e : suc (length zs) + 1 ≡ suc (length zs + 1) = omega arith in rw e (drop_next zs ys x)

delete_at-length :
    {A : Type 0} (xs ys : List A) (x : A) → delete_at (length xs) (xs ++ x ∷ ys) ≡ ok (xs ++ ys)
unfolding delete_at
delete_at-length xs ys x =
    let inside : leb (length xs + 1) (length (xs ++ x ∷ ys)) ≡ true =
      le→leb _ _ (omega (arith, length-append xs (x ∷ ys))) in
    rw (inside, take-length_append xs (x ∷ ys), drop_next xs ys x) refl

module _ {V : Type 0} ⦃fl : Float V⦄ (cmp_equal : List Text → List Text → Bool)
    (sort : List Text → List Text) (current : IoElementDefinition V) where
  -- The definitions that the loop passes over, since they are for another number or other models.
  abbrev pub AreSkipped : List (IoElementDefinition V) → Type 0
  AreSkipped ds = All (λ d. verdict cmp_equal sort d current ≡ skips) ds

  scan-skipped :
      (ps ds rest : List (IoElementDefinition V)) (i : ℕ) (is : List ℕ) (c : IoElementDefinition V)
      → AreSkipped ps
      → scan cmp_equal sort (i + length ps) current ds ≡ finished rest is c
      → scan cmp_equal sort i current (ps ++ ds) ≡ finished (ps ++ rest) is c
  unfolding scan round passed
  scan-skipped [] ds rest i is c h e = let same : i + 0 ≡ i = omega arith in rw same at e
  scan-skipped (a ∷ ps) ds rest i is c (skip, h) e =
      let same : i + suc (length ps) ≡ (i + 1) + length ps = omega arith in
      rw (skip, scan-skipped ps ds rest (i + 1) is c h (rw same at e)) refl

  scan_all-skipped :
      (ps : List (IoElementDefinition V)) (i : ℕ)
      → AreSkipped ps
      → scan cmp_equal sort i current ps ≡ finished ps [] current
  unfolding scan round passed
  scan_all-skipped [] i h = refl
  scan_all-skipped (a ∷ ps) i (skip, h) = rw (skip, scan_all-skipped ps (i + 1) h) refl

  scan-replaced :
      (ps qs : List (IoElementDefinition V)) (x : IoElementDefinition V) (i : ℕ) (is : List ℕ)
      → AreSkipped ps
      → verdict cmp_equal sort x current ≡ replaces
      → scan cmp_equal sort (i + length ps + 1) current qs ≡ finished qs is current
      → scan cmp_equal sort i current (ps ++ x ∷ qs)
        ≡ finished (ps ++ x ∷ qs) ((i + length ps) ∷ is) current
  scan-replaced ps qs x i is h e rest =
      scan-skipped ps (x ∷ qs) (x ∷ qs) i ((i + length ps) ∷ is) current h
        (unfold scan round passed in rw (e, rest) refl)

  -- If one definition is to be replaced by the one that is taken in, and the loop passes over the
  -- others, it is removed, the others stay in their order, and the new one is added at the end.
  on_definition-replaced :
      (ps qs : List (IoElementDefinition V)) (x : IoElementDefinition V)
      → AreSkipped ps
      → verdict cmp_equal sort x current ≡ replaces
      → AreSkipped qs
      → on_definition cmp_equal sort (ps ++ x ∷ qs) current ≡ ok ((ps ++ qs) ++ current ∷ [])
  unfolding on_definition replaced delete_all
  on_definition-replaced ps qs x h e k =
      let scanned = scan-replaced ps qs x 0 [] h e (scan_all-skipped qs (0 + length ps + 1) k) in
      let first : 0 + length ps ≡ length ps = omega arith in
      rw (scanned, first, delete_at-length ps qs x) refl

  -- If two definitions x and y are to be replaced, the loop passes over the others, and z stands
  -- behind y, then x and z are removed, and y stays: the position of y is used after x was removed.
  pub on_definition-shifted :
      (ps qs rs : List (IoElementDefinition V)) (x y z : IoElementDefinition V)
      → AreSkipped ps
      → AreSkipped qs
      → AreSkipped (z ∷ rs)
      → verdict cmp_equal sort x current ≡ replaces
      → verdict cmp_equal sort y current ≡ replaces
      → on_definition cmp_equal sort (ps ++ x ∷ (qs ++ y ∷ z ∷ rs)) current
        ≡ ok ((((ps ++ qs) ++ y ∷ []) ++ rs) ++ current ∷ [])
  unfolding on_definition replaced delete_all
  on_definition-shifted ps qs rs x y z h k l e f =
      let i = 0 + length ps + 1 in
      let scanned =
        scan-replaced ps (qs ++ y ∷ z ∷ rs) x 0 ((i + length qs) ∷ []) h e (
          scan-replaced qs (z ∷ rs) y i [] k f (scan_all-skipped (z ∷ rs) (i + length qs + 1) l)) in
      let front = (ps ++ qs) ++ y ∷ [] in
      let first : 0 + length ps ≡ length ps = omega arith in
      let second : 0 + length ps + 1 + length qs ≡ length front =
        omega (arith, length-append (ps ++ qs) (y ∷ []), length-append ps qs) in
      let split : ps ++ (qs ++ y ∷ z ∷ rs) ≡ front ++ z ∷ rs =
        sym (append_assoc ps qs (y ∷ z ∷ rs)) ∙ sym (append_assoc (ps ++ qs) (y ∷ []) (z ∷ rs)) in
      rw
        (
          scanned,
          second,
          first,
          delete_at-length ps (qs ++ y ∷ z ∷ rs) x,
          split,
          delete_at-length front rs z,
        )
        refl
