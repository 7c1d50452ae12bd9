-- ===== src/DropFs/Paths.antt =====
-- Paths inside a drop: no component is empty, "." or "..".
use native_pipe.Base.{
  ℕ, suc, ◌+◌, ◌≤◌, ◌≡◌, refl, sym, ◌∙◌, ap, Bool, true, false, ◌&&◌, some, List, [], ◌∷◌, ◌++◌,
  ltb, ◌==◌, if◌then◌else◌, length, length-append, arith, append-nil, Bool-cases, inl, inr, ◌⊎◌,
}
use native_pipe.DropFs.State.{path_max}
use native_pipe.DropFs.Names.{slash, dot, has_slash, valid_name, join, rest_under}

-- What a component is so far: 0 empty, 1 ".", 2 "..", 3 a name.
abbrev pub component : ℕ → ℕ → ℕ
component st c = if (c == dot) && ltb st 2 then suc st else 3

-- No component from here on is empty, "." or "..".
abbrev pub clean : ℕ → List ℕ → Bool
clean st [] = st == 3
clean st (c ∷ cs) = if c == slash then (st == 3) && clean 0 cs else clean (component st c) cs

-- A path inside a drop; the drop's own directory is the empty one.
abbrev pub IsPath : List ℕ → Type 0
IsPath p = (length p ≤ path_max) × ((p ≡ []) ⊎ (clean 0 p ≡ true))

pub clean-slash :
    (st : ℕ) (xs ys : List ℕ) → clean st (xs ++ (slash ∷ ys)) ≡ (clean st xs && clean 0 ys)
clean-slash st [] ys = refl
clean-slash st (x ∷ xs) ys = ground (arith, clean-slash 0 xs ys, clean-slash (component st x) xs ys)

clean-rest : (cs : List ℕ) → has_slash cs ≡ false → clean 3 cs ≡ true
clean-rest [] h = refl
clean-rest (c ∷ cs) h = ground (arith, clean-rest cs)

clean-name : (name : List ℕ) → valid_name name ≡ true → clean 0 name ≡ true
unfolding valid_name
clean-name [] h = ground arith
clean-name (a ∷ []) h = ground arith
clean-name (a ∷ b ∷ []) h = ground arith
clean-name (a ∷ b ∷ c ∷ cs) h =
    ground (arith, clean-rest cs, clean-rest (c ∷ cs), clean-rest (b ∷ c ∷ cs))

-- A path that is not the drop's own directory.
abbrev pub IsNamed : List ℕ → Type 0
IsNamed p = (length p ≤ path_max) × (clean 0 p ≡ true)

pub IsNamed-join :
    (parent name : List ℕ) {p : List ℕ}
    → IsPath parent
    → valid_name name ≡ true
    → join parent name ≡ some p
    → IsNamed p
unfolding join
IsNamed-join [] name {p} h v e = ground (arith, clean-name name v, e)
IsNamed-join (x ∷ xs) name {p} h v e =
    ground (arith, clean-name name v, clean-slash 0 (x ∷ xs) name, e, h)

-- What a prefix leaves of a path, put behind another prefix.
pub rest_under-append :
    (path prefix : List ℕ) {rest : List ℕ}
    → rest_under path prefix ≡ some rest
    → (path ≡ prefix ++ rest) × ((rest ≡ []) ⊎ ((ys : List ℕ) × (rest ≡ slash ∷ ys)))
rest_under-append [] [] {rest} e = ground (arith, e)
rest_under-append (p ∷ ps) [] {rest} e = elim (Bool-cases (p == slash)) [
  | inl here ↦
      let same : p ∷ ps ≡ rest = cc (here, e) in
      (same, inr (ps, sym same ∙ ap (λ q. q ∷ ps) (ground (arith, here))))
  | inr other ↦ cc (other, e)
]
rest_under-append [] (q ∷ qs) {rest} e = ground arith
rest_under-append (p ∷ ps) (q ∷ qs) {rest} e = ground (arith, rest_under-append ps qs {rest = rest})

clean-after : (from ys : List ℕ) → IsPath (from ++ (slash ∷ ys)) → clean 0 ys ≡ true
clean-after from ys (short, inl none_left) =
    ground (arith, length-append from (slash ∷ ys), none_left)
clean-after from ys (short, inr good) = ground (arith, clean-slash 0 from ys, good)

-- A part of a path under one directory, moved under another.
pub IsPath-moved :
    (path from to : List ℕ) {rest : List ℕ}
    → rest_under path from ≡ some rest
    → IsPath path
    → clean 0 to ≡ true
    → length to + length rest ≤ path_max
    → IsPath (to ++ rest)
IsPath-moved path from to {rest} e h k l =
    let (whole, tail) = rest_under-append path from {rest = rest} e in
    let size = length-append to rest in
    elim tail [
      | inl ends ↦ (omega (arith, size, l), inr (rw (ends, append-nil) k))
      | inr (ys, more) ↦
          let inside : IsPath (from ++ (slash ∷ ys)) = rw (sym more) (rw (sym whole) h) in
          (
            omega (arith, size, l),
            inr (rw more (rw (clean-slash 0 to ys, k) (clean-after from ys inside))),
          )
    ]
