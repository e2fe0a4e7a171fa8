-- ===== src/Wire/Rotation/Items.antt =====
-- A transcript with counted lists, as a list of items: runs of fields, and rows after their number.
use master_recovery.Prelude.{ℕ, ◌≡◌, refl, sym, ap, ◌∙◌, List, [], ◌∷◌, ◌++◌, map, arith, length}
use master_recovery.Wire.Fields.{
  Field, word, encode_field, encode, AllFit, Shape, shape, shapes, prefix-inj, word-inj,
}
use master_recovery.Wire.Encoding.{encode-append}

pub data Item : Type 0 where
  plain : List Field → Item
  -- the number that is written before the rows, and the fields of each row
  rows : ℕ → List (List Field) → Item

unfoldable pub concat {ℓ} : {A : Type ℓ} → List (List A) → List A
concat [] = []
concat (l ∷ ls) = l ++ concat ls

unfoldable pub flatten : List Item → List Field
flatten [] = []
flatten (plain fs ∷ is) = fs ++ flatten is
flatten (rows n rs ∷ is) = word 2 n ∷ (concat rs ++ flatten is)

-- What a kind of message fixes of an item: the shape of a run, or that of every row.
pub data Piece : Type 0 where
  plain rows : List Shape → Piece

abbrev pub AllShaped : List Shape → List (List Field) → Type 0
AllShaped ss [] = Unit {0}
AllShaped ss (r ∷ rs) = (shapes r ≡ ss) × AllShaped ss rs

abbrev pub Conforms : List Piece → List Item → Type 0
Conforms [] [] = Unit {0}
Conforms (Piece.plain ss ∷ ps) (Item.plain fs ∷ is) = (shapes fs ≡ ss) × Conforms ps is
Conforms (Piece.rows ss ∷ ps) (Item.rows n rs ∷ is) =
    (n ≡ length rs) × AllShaped ss rs × Conforms ps is
Conforms _ _ = ⊥

pub length-map {ℓ ℓ'} :
    {A : Type ℓ} {B : Type ℓ'} (f : A → B) (l : List A) → length l ≡ length (map f l)
length-map f [] = refl
length-map f (x ∷ xs) = ground (arith, length-map f xs)

-- Rows that one function makes have one shape.
pub map-AllShaped {ℓ} :
    {A : Type ℓ} (ss : List Shape) (f : A → List Field) (l : List A)
    → ((a : A) → shapes (f a) ≡ ss)
    → AllShaped ss (map f l)
map-AllShaped ss f [] h = tt
map-AllShaped ss f (x ∷ xs) h = (h x, map-AllShaped ss f xs h)

shapes-append : (fs gs : List Field) → shapes (fs ++ gs) ≡ shapes fs ++ shapes gs
shapes-append [] gs = refl
shapes-append (f ∷ fs) gs = ap (λ (q : List Shape). shape f ∷ q) (shapes-append fs gs)

rows-shapes :
    (ss : List Shape) (rs qs : List (List Field))
    → length rs ≡ length qs
    → AllShaped ss rs
    → AllShaped ss qs
    → shapes (concat rs) ≡ shapes (concat qs)
unfolding concat
rows-shapes ss [] [] n hr hq = refl
rows-shapes ss [] (q ∷ qs) n hr hq = absurd (ground arith)
rows-shapes ss (r ∷ rs) [] n hr hq = absurd (ground arith)
rows-shapes ss (r ∷ rs) (q ∷ qs) n hr hq =
    let others = rows-shapes ss rs qs (ground arith) hr.1 hq.1 in
    cc (shapes-append r (concat rs), shapes-append q (concat qs), others, hr.0, hq.0)

AllFit-split : (fs gs : List Field) → AllFit (fs ++ gs) → AllFit fs × AllFit gs
AllFit-split [] gs h = (tt, h)
AllFit-split (f ∷ fs) gs h = let (a, b) = AllFit-split fs gs h.1 in ((h.0, a), b)

-- Rows of one shape, as many on both sides, that are the same when strung together are the same.
concat-inj :
    (ss : List Shape) (rs qs : List (List Field))
    → length rs ≡ length qs
    → AllShaped ss rs
    → AllShaped ss qs
    → AllFit (concat rs)
    → AllFit (concat qs)
    → encode (concat rs) ≡ encode (concat qs)
    → rs ≡ qs
unfolding concat
concat-inj ss [] [] n hr hq fr fq e = refl
concat-inj ss [] (q ∷ qs) n hr hq fr fq e = absurd (ground arith)
concat-inj ss (r ∷ rs) [] n hr hq fr fq e = absurd (ground arith)
concat-inj ss (r ∷ rs) (q ∷ qs) n hr hq fr fq e =
    let (f₁, f₂) = AllFit-split r (concat rs) fr in
    let (g₁, g₂) = AllFit-split q (concat qs) fq in
    let (first, rest) =
      prefix-inj r q (encode (concat rs)) (encode (concat qs)) f₁ g₁ (hr.0 ∙ sym hq.0)
        (sym (encode-append r (concat rs)) ∙ e ∙ encode-append q (concat qs)) in
    let others = concat-inj ss rs qs (ground arith) hr.1 hq.1 f₂ g₂ rest in cc (first, others)

-- Two lists of items of one layout with the same bytes are the same.
pub items-inj :
    (ps : List Piece) (is js : List Item)
    → Conforms ps is
    → Conforms ps js
    → AllFit (flatten is)
    → AllFit (flatten js)
    → encode (flatten is) ≡ encode (flatten js)
    → is ≡ js
unfolding flatten encode encode_field
items-inj [] [] [] ci cj fi fj e = refl
items-inj (Piece.plain ss ∷ ps) (Item.plain fs ∷ is) (Item.plain gs ∷ js) ci cj fi fj e =
    let (f₁, f₂) = AllFit-split fs (flatten is) fi in
    let (g₁, g₂) = AllFit-split gs (flatten js) fj in
    let (first, rest) =
      prefix-inj fs gs (encode (flatten is)) (encode (flatten js)) f₁ g₁ (ci.0 ∙ sym cj.0)
        (sym (encode-append fs (flatten is)) ∙ e ∙ encode-append gs (flatten js)) in
    let others = items-inj ps is js ci.1 cj.1 f₂ g₂ rest in cc (first, others)
items-inj (Piece.rows ss ∷ ps) (Item.rows n rs ∷ is) (Item.rows m qs ∷ js) ci cj fi fj e =
    let (same, rest) =
      word-inj 2 n m (encode (concat rs ++ flatten is)) (encode (concat qs ++ flatten js)) fi.0 fj.0
        e in
    let many : length rs ≡ length qs = sym ci.0 ∙ same ∙ cj.0 in
    let (f₁, f₂) = AllFit-split (concat rs) (flatten is) fi.1 in
    let (g₁, g₂) = AllFit-split (concat qs) (flatten js) fj.1 in
    let (strung, behind) =
      prefix-inj (concat rs) (concat qs) (encode (flatten is)) (encode (flatten js)) f₁ g₁
        (rows-shapes ss rs qs many ci.1 cj.1)
        (sym (encode-append (concat rs) (flatten is))
          ∙ rest
          ∙ encode-append (concat qs) (flatten js)) in
    let first = concat-inj ss rs qs many ci.1 cj.1 f₁ g₁ (ap encode strung) in
    let others = items-inj ps is js ci.2 cj.2 f₂ g₂ behind in cc (same, first, others)
items-inj [] [] (j ∷ js) ci cj fi fj e = absurd cj
items-inj [] (i ∷ is) js ci cj fi fj e = absurd ci
items-inj (Piece.plain ss ∷ ps) [] js ci cj fi fj e = absurd ci
items-inj (Piece.plain ss ∷ ps) (Item.rows n rs ∷ is) js ci cj fi fj e = absurd ci
items-inj (Piece.plain ss ∷ ps) (Item.plain fs ∷ is) [] ci cj fi fj e = absurd cj
items-inj (Piece.plain ss ∷ ps) (Item.plain fs ∷ is) (Item.rows n rs ∷ js) ci cj fi fj e = absurd cj
items-inj (Piece.rows ss ∷ ps) [] js ci cj fi fj e = absurd ci
items-inj (Piece.rows ss ∷ ps) (Item.plain fs ∷ is) js ci cj fi fj e = absurd ci
items-inj (Piece.rows ss ∷ ps) (Item.rows n rs ∷ is) [] ci cj fi fj e = absurd cj
items-inj (Piece.rows ss ∷ ps) (Item.rows n rs ∷ is) (Item.plain fs ∷ js) ci cj fi fj e = absurd cj
