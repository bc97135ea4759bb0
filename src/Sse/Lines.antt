-- ===== src/Sse/Lines.antt =====
-- The lines of a text, and what cutting at the first line feed does to them.
use the_last_aibender.Prelude.{
  ℕ, ◌<◌, ◌≡◌, refl, false, Bool-cases, inl, inr, none, some, Option-cases, List, [], ◌∷◌, ◌++◌,
  ◌==◌, if◌then◌else◌, length, arith,
}
use the_last_aibender.Sse.{Text, line_feed, cut_at}

-- The complete lines of a text, and what follows the last line feed.
pub record Lines : Type 0 where
  pub complete : List Text
  pub remainder : Text

abbrev pub longer : ℕ → Lines → Lines
longer x s = elim s.complete [
  | [] ↦ record s { remainder = x ∷ s.remainder }
  | l ∷ ls ↦ record s { complete = (x ∷ l) ∷ ls }
]

abbrev pub lines_of : Text → Lines
lines_of [] = record { complete = []; remainder = [] }
lines_of (x ∷ xs) =
    let rest = lines_of xs in
    if x == line_feed then record rest { complete = [] ∷ rest.complete } else longer x rest

-- One text's lines before another's.
abbrev pub joined : List Text → Lines → Lines
joined ls s = record s { complete = ls ++ s.complete }

pub lines_of-append :
    (xs ys : Text)
    → lines_of (xs ++ ys) ≡ joined (lines_of xs).complete (lines_of ((lines_of xs).remainder ++ ys))
lines_of-append [] ys = refl
lines_of-append (x ∷ xs) ys = elim (Bool-cases (x == line_feed)) [
  | inl e ↦ rw (e, lines_of-append xs ys) refl
  | inr e ↦
      rw (e, lines_of-append xs ys) (longer_joined e (lines_of xs).complete (lines_of xs).remainder)
]
  where
    longer_joined :
        (x == line_feed) ≡ false
        → (ls : List Text) (r : Text)
        → let s : Lines = record { complete = ls; remainder = r } in
          longer x (joined ls (lines_of (r ++ ys)))
          ≡ joined (longer x s).complete (lines_of ((longer x s).remainder ++ ys))
    longer_joined e [] r = rw e refl
    longer_joined e (l ∷ ls) r = refl

pub cut-none :
    (xs : Text)
    → cut_at line_feed xs ≡ none
    → lines_of xs ≡ record { complete = []; remainder = xs }
cut-none [] e = refl
cut-none (x ∷ xs) e = elim (Bool-cases (x == line_feed)) [
  | inl q ↦ let e' = rw q at e in cc
  | inr q ↦
      let e' = rw q at e in
      elim (Option-cases (cut_at line_feed xs)) [
        | inl none_in ↦ rw (q, cut-none xs none_in) refl
        | inr (cut, c) ↦ let e'' = rw c at e' in cc
      ]
]

pub cut-some :
    (xs line rest : Text)
    → cut_at line_feed xs ≡ some (line, rest)
    → (lines_of xs ≡ joined (line ∷ []) (lines_of rest)) × (length rest < length xs)
cut-some [] line rest e = cc
cut-some (x ∷ xs) line rest e = elim (Bool-cases (x == line_feed)) [
  | inl q ↦
      let e' = rw q at e in
      let same_rest : xs ≡ rest = cc in
      let same_line : [] ≡ line = cc in rw (q, ← same_rest, ← same_line) (refl, omega arith)
  | inr q ↦
      let e' = rw q at e in
      elim (Option-cases (cut_at line_feed xs)) [
        | inl c ↦ let e'' = rw c at e' in cc
        | inr ((before, after), c) ↦
            let e'' = rw c at e' in
            let same_rest : after ≡ rest = cc in
            let same_line : x ∷ before ≡ line = cc in
            let (lines, shorter) = cut-some xs before after c in
            rw (q, ← same_rest, ← same_line, lines) (refl, omega (arith, shorter))
      ]
]
