-- ===== src/Pool/Chunks.antt =====
-- src/addrpool.h: how the text of the pool arrives in pieces. Where one read ends and the next
-- one starts does not matter.
use natporte.Base.{
  ◌==◌, true, false, Bool-cases, ◌≡◌, ◌⊎◌, inl, inr, refl, sym, subst, ap, ◌∙◌, some, List, [], ◌∷◌,
  ◌++◌, ℕ,
}
use mathlib.Core.List.{append_assoc}
use natporte.System.{System, done}
use natporte.Pool.Lines.{line_feed}
use natporte.Pool.Lines.Search.{fields}
use natporte.Pool.Lines.Fields.{StartsLine, split-eq-fields}
use natporte.Pool.Step.{lines_and_rest, read_text}

pub lines_and_rest-split :
    (ls : List (List ℕ)) (r : List ℕ) → lines_and_rest (ls ++ r ∷ []) ≡ some (ls, r)
unfolding lines_and_rest
lines_and_rest-split [] r = refl
lines_and_rest-split (l ∷ []) r = refl
lines_and_rest-split (l ∷ m ∷ ls) r = rw (lines_and_rest-split (m ∷ ls) r) refl

-- Of a text: the complete lines, the rest, and what more text adds.
record Parts (xs : List ℕ) : Type 0 where
  lines : List (List ℕ)
  rest : List ℕ
  whole : fields xs ≡ lines ++ rest ∷ []
  more : (ys : List ℕ) → fields (xs ++ ys) ≡ lines ++ fields (rest ++ ys)

feed-Parts : (x : ℕ) (xs : List ℕ) → (x == line_feed) ≡ true → Parts xs → Parts (x ∷ xs)
unfolding fields
feed-Parts x xs e p = record {
  lines = [] ∷ p.lines;
  rest = p.rest;
  whole = rw e (ap ([] ∷◌) p.whole);
  more = λ ys. rw e (ap ([] ∷◌) (p.more ys));
}

byte-Parts : (x : ℕ) (xs : List ℕ) → (x == line_feed) ≡ false → Parts xs → Parts (x ∷ xs)
unfolding fields
byte-Parts x xs e p = cases p.lines p.whole p.more
  where
    cases :
        (ls : List (List ℕ))
        → fields xs ≡ ls ++ p.rest ∷ []
        → ((ys : List ℕ) → fields (xs ++ ys) ≡ ls ++ fields (p.rest ++ ys))
        → Parts (x ∷ xs)
    cases [] whole more = record {
      lines = [];
      rest = x ∷ p.rest;
      whole = rw (fields, e, whole) refl;
      more = λ ys. rw (fields, e, more ys) refl;
    }
    cases (l ∷ ls) whole more = record {
      lines = (x ∷ l) ∷ ls;
      rest = p.rest;
      whole = rw (fields, e, whole) refl;
      more = λ ys. rw (fields, e, more ys) refl;
    }

parts : (xs : List ℕ) → Parts xs
unfolding fields
parts [] = record { lines = []; rest = []; whole = refl; more = λ ys. refl }
parts (x ∷ xs) = cases (Bool-cases (x == line_feed)) (parts xs)
  where
    cases : ((x == line_feed) ≡ true) ⊎ ((x == line_feed) ≡ false) → Parts xs → Parts (x ∷ xs)
    cases (inl e) = feed-Parts x xs e
    cases (inr e) = byte-Parts x xs e

-- What a read makes of a text with these lines and this rest.
read_text-files :
    (x : ℕ) (xs : List ℕ) (s : System) (ls : List (List ℕ)) (r : List ℕ)
    → StartsLine (s.text ++ x ∷ xs)
    → fields (s.text ++ x ∷ xs) ≡ ls ++ r ∷ []
    → read_text (some (x ∷ xs)) s ≡ done (record s { pending = ls; text = r })
unfolding read_text
read_text-files x xs s ls r h whole =
    rw (read_text, split-eq-fields (s.text ++ x ∷ xs) h, whole, lines_and_rest-split ls r) refl

StartsLine-append : (xs ys : List ℕ) → StartsLine xs → StartsLine (xs ++ ys)
StartsLine-append [] ys h = absurd h
StartsLine-append (x ∷ xs) ys h = h

done-injective : {s t : System} → done s ≡ done t → s ≡ t
done-injective e = cc

module _ (x : ℕ) (xs : List ℕ) (y : ℕ) (ys : List ℕ) (s : System) where
  -- Where one read from the pool ends and the next one starts does not matter: if neither text
  -- that is split starts with a line feed, two reads leave the lines and the rest that one read
  -- of both pieces leaves, the lines of the first before those of the second.
  pub read_text-pieces :
      (t : System)
      → read_text (some (x ∷ xs)) s ≡ done t
      → StartsLine (s.text ++ x ∷ xs)
      → StartsLine (t.text ++ y ∷ ys)
      → (u : System) × (read_text (some (y ∷ ys)) t ≡ done u)
        × (read_text (some (x ∷ (xs ++ (y ∷ ys)))) s
            ≡ done (record u { pending = t.pending ++ u.pending }))
  read_text-pieces t read starts goes_on =
      let p = parts (s.text ++ x ∷ xs) in
      let same : record s { pending = p.lines; text = p.rest } ≡ t =
        done-injective (sym (read_text-files x xs s p.lines p.rest starts p.whole) ∙ read) in
      subst (λ (v : System). StartsLine (v.text ++ y ∷ ys) → Pieces v) same go goes_on
    where
      Pieces : System → Type 0
      Pieces t =
          (u : System) × (read_text (some (y ∷ ys)) t ≡ done u)
          × (read_text (some (x ∷ (xs ++ (y ∷ ys)))) s
              ≡ done (record u { pending = t.pending ++ u.pending }))

      go :
          let p = parts (s.text ++ x ∷ xs) in
          StartsLine (p.rest ++ y ∷ ys) → Pieces (record s { pending = p.lines; text = p.rest })
      go h =
          let p = parts (s.text ++ x ∷ xs) in
          let q = parts (p.rest ++ y ∷ ys) in
          let one : (s.text ++ x ∷ xs) ++ y ∷ ys ≡ s.text ++ (x ∷ (xs ++ (y ∷ ys))) =
            append_assoc s.text (x ∷ xs) (y ∷ ys) in
          (
            record s { pending = q.lines; text = q.rest },
            read_text-files y ys (record s { pending = p.lines; text = p.rest }) q.lines q.rest h
                q.whole,
            read_text-files x (xs ++ (y ∷ ys)) s (p.lines ++ q.lines) q.rest
                (subst StartsLine one (StartsLine-append (s.text ++ x ∷ xs) (y ∷ ys) starts))
                (sym (ap fields one)
                  ∙ p.more (y ∷ ys)
                  ∙ ap (p.lines ++◌) q.whole
                  ∙ sym (append_assoc p.lines q.lines (q.rest ∷ []))),
          )
