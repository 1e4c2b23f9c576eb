-- ===== src/Bitunix/Signature.antt =====
-- What `sign` of app/adapters/providers/bitunix.py computes.
use mathlib.Core.List.{Permᴰ}
use vip_channel_management_s.Prelude.{
  ℕ, ◌&&◌, ◌||◌, not, true, ltb, leb, ◌==◌, Bool, false, ◌≡◌, refl, Text, List, [], ◌∷◌, ◌++◌, All,
  arith, subst, ◌∙◌, Bool-cases, inl, inr, sym, ap,
}
use vip_channel_management_s.Bitunix.{
  Param, param_type, code_sum, before, ordered_insert, sorted, joined, sign, form,
}
use vip_channel_management_s.Uid.Characters.{is_digit, is_decimal}
use vip_channel_management_s.Providers.{BitunixCredentials}
use vip_channel_management_s.Decimal.{digits}

-- Two parameters that the sort does not tell apart.
abbrev pub ties : Param → Param → Bool
ties p q = param_type p.0 == param_type q.0 && code_sum p.0 == code_sum q.0

-- No two parameters tie.
abbrev pub IsDistinct : List Param → Type 0
IsDistinct [] = Unit
IsDistinct (p ∷ ps) = All (λ q. ties p q ≡ false) ps × IsDistinct ps

rank_total :
    (a b s u : ℕ)
    → (a == b && s == u) ≡ false
    → (ltb a b || (a == b && leb s u)) ≡ not (ltb b a || (b == a && leb u s))
rank_total a b s u h = ground arith

rank_trans :
    (a b c s u v : ℕ)
    → (ltb a b || (a == b && leb s u)) ≡ true
    → (ltb b c || (b == c && leb u v)) ≡ true
    → (ltb a c || (a == c && leb s v)) ≡ true
rank_trans a b c s u v h k = ground arith

before_total : (p q : Param) → ties p q ≡ false → before p q ≡ not (before q p)
unfolding before
before_total p q h = rank_total (param_type p.0) (param_type q.0) (code_sum p.0) (code_sum q.0) h

before_trans : (p q r : Param) → before p q ≡ true → before q r ≡ true → before p r ≡ true
unfolding before
before_trans p q r h k =
    rank_trans (param_type p.0) (param_type q.0) (param_type r.0) (code_sum p.0) (code_sum q.0)
      (code_sum r.0) h k

ordered_insert-before :
    (p q : Param) (l : List Param) → before p q ≡ true → ordered_insert p (q ∷ l) ≡ p ∷ q ∷ l
unfolding ordered_insert
ordered_insert-before p q l h = rw h refl

ordered_insert-after :
    (p q : Param) (l : List Param)
    → before p q ≡ false
    → ordered_insert p (q ∷ l) ≡ q ∷ ordered_insert p l
unfolding ordered_insert
ordered_insert-after p q l h = rw h refl

-- Only one of the two stands before the head of the list.
insert_around :
    (p q r : Param) (l : List Param)
    → before p r ≡ true
    → before q r ≡ false
    → ordered_insert p (ordered_insert q (r ∷ l)) ≡ ordered_insert q (ordered_insert p (r ∷ l))
insert_around p q r l pr qr =
    let qp : before q p ≡ false = grind (arith, before_trans q p r) in
    rw
      (
        ordered_insert-after q r l qr,
        ordered_insert-before p r l pr,
        ordered_insert-before p r (ordered_insert q l) pr,
        ordered_insert-after q p (r ∷ l) qp,
        ordered_insert-after q r l qr,
      )
      refl

-- Both stand before the head of the list, the second before the first.
insert_swapped :
    (p q r : Param) (l : List Param)
    → before p r ≡ true
    → before q r ≡ true
    → before q p ≡ true
    → before p q ≡ false
    → ordered_insert p (ordered_insert q (r ∷ l)) ≡ ordered_insert q (ordered_insert p (r ∷ l))
insert_swapped p q r l pr qr qp pq =
    rw
      (
        ordered_insert-before q r l qr,
        ordered_insert-before p r l pr,
        ordered_insert-after p q (r ∷ l) pq,
        ordered_insert-before q p (r ∷ l) qp,
        ordered_insert-before p r l pr,
      )
      refl

-- Neither stands before the head of the list.
insert_behind :
    (p q r : Param) (l : List Param)
    → before p r ≡ false
    → before q r ≡ false
    → ordered_insert p (ordered_insert q l) ≡ ordered_insert q (ordered_insert p l)
    → ordered_insert p (ordered_insert q (r ∷ l)) ≡ ordered_insert q (ordered_insert p (r ∷ l))
insert_behind p q r l pr qr ih =
    rw
      (
        ordered_insert-after q r l qr,
        ordered_insert-after p r l pr,
        ordered_insert-after p r (ordered_insert q l) pr,
        ordered_insert-after q r (ordered_insert p l) qr,
      )
      (ap (λ l. r ∷ l) ih)

ordered_insert_one :
    (p q : Param)
    → before p q ≡ not (before q p)
    → ordered_insert p (q ∷ []) ≡ ordered_insert q (p ∷ [])
unfolding ordered_insert
ordered_insert_one p q h = elim (Bool-cases (before q p)) [
  | inl e ↦ rw (h, e) refl
  | inr e ↦ rw (h, e) refl
]

ordered_insert_comm :
    (p q : Param) (l : List Param)
    → before p q ≡ not (before q p)
    → ordered_insert p (ordered_insert q l) ≡ ordered_insert q (ordered_insert p l)
ordered_insert_comm p q [] h = unfold ordered_insert in ordered_insert_one p q h
ordered_insert_comm p q (r ∷ rs) h = elim (Bool-cases (before p r)) [
  | inl pr ↦ elim (Bool-cases (before q r)) [
    | inl qr ↦ elim (Bool-cases (before q p)) [
      | inl qp ↦ insert_swapped p q r rs pr qr qp (cc)
      | inr qp ↦ sym (insert_swapped q p r rs qr pr (cc) qp)
    ]
    | inr qr ↦ insert_around p q r rs pr qr
  ]
  | inr pr ↦ elim (Bool-cases (before q r)) [
    | inl qr ↦ sym (insert_around q p r rs qr pr)
    | inr qr ↦ insert_behind p q r rs pr qr (ordered_insert_comm p q rs h)
  ]
]

tie_comm : (a b s u : ℕ) → (a == b && s == u) ≡ false → (b == a && u == s) ≡ false
tie_comm a b s u h = ground arith

All-perm : (P : Param → Type 0) {l m : List Param} → Permᴰ l m → All P l → All P m
All-perm P Permᴰ.nil d = d
All-perm P (Permᴰ.cons e h) d = (subst P e d.0, All-perm P h d.1)
All-perm P (Permᴰ.swap e g) d = (subst P g d.1.0, (subst P e d.0, d.1.1))
All-perm P (Permᴰ.trans h k) d = All-perm P k (All-perm P h d)

IsDistinct-perm : {l m : List Param} → Permᴰ l m → IsDistinct l → IsDistinct m
IsDistinct-perm Permᴰ.nil d = d
IsDistinct-perm (Permᴰ.cons {a = a} {l₂ = m} e h) d = (
  subst (λ p. All (λ q. ties p q ≡ false) m) e (All-perm (λ q. ties a q ≡ false) h d.0),
  IsDistinct-perm h d.1,
)
IsDistinct-perm (Permᴰ.swap {a = a} {b = b} {a' = a'} {l = l} e g) d =
    subst (λ c. IsDistinct (a' ∷ c ∷ l)) e
      (subst (λ c. IsDistinct (c ∷ a ∷ l)) g
        (
          (tie_comm (param_type a.0) (param_type b.0) (code_sum a.0) (code_sum b.0) d.0.0, d.1.0),
          (d.0.1, d.1.1),
        ))
IsDistinct-perm (Permᴰ.trans h k) d = IsDistinct-perm k (IsDistinct-perm h d)

sorted_perm : {l m : List Param} → Permᴰ l m → IsDistinct l → sorted l ≡ sorted m
unfolding sorted
sorted_perm Permᴰ.nil d = refl
sorted_perm (Permᴰ.cons e h) d = λ i. ordered_insert (e i) (sorted_perm h d.1 i)
sorted_perm (Permᴰ.swap {a = a} {b = b} {l = l} e g) d =
    ordered_insert_comm a b (sorted l) (before_total a b d.0.0)
    ∙ (λ i. ordered_insert (g i) (ordered_insert (e i) (sorted l)))
sorted_perm (Permᴰ.trans h k) d = sorted_perm h d ∙ sorted_perm k (IsDistinct-perm h d)

-- Where no two keys have the same sort key, the signature does not depend on the order in which
-- the parameters are given.
pub sign_perm :
    (sha1 : Text → Text) (api_secret : Text) {l m : List Param}
    → Permᴰ l m
    → IsDistinct l
    → sign sha1 l api_secret ≡ sign sha1 m api_secret
unfolding sign
sign_perm sha1 api_secret h d = λ i. sha1 (joined (sorted_perm h d i) ++ api_secret)

-- The signature of a request: the UID, the time and the secret, in this order.
pub form-signature :
    (sha1 : Text → Text) (credentials : BitunixCredentials) (uid : Text) (time : ℕ)
    → (form sha1 credentials uid time).signature
      ≡ sha1 ((uid ++ (digits time ++ [])) ++ credentials.api_secret)
unfolding sign sorted ordered_insert before param_type code_sum joined is_digit is_decimal
form-signature sha1 credentials uid time = refl
