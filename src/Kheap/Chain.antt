-- ===== src/Kheap/Chain.antt =====
-- Lists of pagerefs: push, unlink, and the walks along them.
use os.Base.{
  ℕ, zero, suc, ◌≤◌, ◌<◌, ◌≡◌, ◌≢◌, inl, inr, refl, sym, ap, subst, ◌∙◌, true, false, arith, ◌==◌,
  Option, none, some, List, [], ◌∷◌, length, Bool-cases, if◌then◌else◌, ==_iff,
}
use os.Base.Outcome.{Outcome, ok}
use os.Kheap.{Links, change, push, unlink_loop, unlink, npagerefs}
use os.Kheap.Blocks.{has}

-- From `h` the links lead through the pagerefs, each of which stands once.
pub data Chain (next : ℕ → Option ℕ) : Option ℕ → List ℕ → Type 0 where
  stop : {h : Option ℕ} → h ≡ none → Chain next h []
  node :
      {h : Option ℕ} {p : ℕ} {xs : List ℕ}
      → h ≡ some p
      → has p xs ≡ false
      → Chain next (next p) xs
      → Chain next h (p ∷ xs)

abbrev pub remove : ℕ → List ℕ → List ℕ
remove p [] = []
remove p (x ∷ xs) = if x == p then xs else x ∷ remove p xs

pub has-remove : (p q : ℕ) (xs : List ℕ) → has q xs ≡ false → has q (remove p xs) ≡ false
has-remove p q [] h = refl
has-remove p q (x ∷ xs) h = ground (arith, h, has-remove p q xs)

pub Chain-frame :
    (next next' : ℕ → Option ℕ) (h : Option ℕ) (xs : List ℕ)
    → ((q : ℕ) → has q xs ≡ true → next' q ≡ next q)
    → Chain next h xs
    → Chain next' h xs
Chain-frame next next' h _ same (stop e) = stop e
Chain-frame next next' h _ same (node {p = p} {xs = xs} e out c) = node e out (
    subst (λ a. Chain next' a xs) (sym (same p (ground arith)))
      (Chain-frame next next' (next p) xs (λ q m. same q (ground (arith, m))) c))

pub change-other {ℓ} :
    {A : Type ℓ} (f : ℕ → A) (p : ℕ) (v : A) (q : ℕ) → p ≢ q → change f p v q ≡ f q
change-other f p v q ne = let e : (p == q) ≡ false = ground (arith, ne) in rw e refl

pub change_self {ℓ} : {A : Type ℓ} (f : ℕ → A) (p : ℕ) (v : A) → change f p v p ≡ v
change_self f p v = let e : (p == p) ≡ true = ground arith in rw e refl

member-ne : (p q : ℕ) (xs : List ℕ) → has p xs ≡ false → has q xs ≡ true → p ≢ q
member-ne p q xs out m e = ground (arith, out, m, ap (λ x. has x xs) e)

pub push-Chain :
    (l : Links) (p : ℕ) (xs : List ℕ)
    → has p xs ≡ false
    → Chain l.next l.head xs
    → Chain (push p l).next (push p l).head (p ∷ xs)
unfolding push
push-Chain l p xs out c = node refl out (
    subst (λ a. Chain (change l.next p l.head) a xs) (sym (change_self l.next p l.head))
      (Chain-frame l.next (change l.next p l.head) l.head xs
        (λ q m. change-other l.next p l.head q (member-ne p q xs out m)) c))

-- What unlinking p behind `before` leaves.
record Unlinked (p before : ℕ) (xs : List ℕ) (l : Links) (o : Outcome Links) : Type 0 where
  l' : Links
  result : o ≡ ok l'
  same_head : l'.head ≡ l.head
  rest : Chain l'.next (l'.next before) (remove p xs)
  kept : (q : ℕ) → before ≢ q → has q xs ≡ false → l'.next q ≡ l.next q

unlink_loop-Unlinked :
    (fuel p before : ℕ) (l : Links) (xs : List ℕ)
    → length xs < fuel
    → has before xs ≡ false
    → Chain l.next (l.next before) xs
    → Unlinked p before xs l (unlink_loop fuel p before l)
unfolding unlink_loop
unlink_loop-Unlinked zero p before l xs few out c = absurd (omega arith)
unlink_loop-Unlinked (suc fuel) p before l _ few out (stop e) = record {
  l' = l;
  result = rw (e, unlink_loop) refl;
  same_head = refl;
  rest = stop e;
  kept = λ q n h. refl;
}
unlink_loop-Unlinked (suc fuel) p before l _ few out (node {p = guy} {xs = xs} e fresh c) =
    elim (Bool-cases (guy == p)) [
      | inl s ↦
          let next' = change l.next before (l.next p) in
          let there : guy ≡ p = (==_iff guy p).0 s in
          record {
            l' = record l { next = next' };
            result = rw (e, unlink_loop, s) refl;
            same_head = refl;
            rest = rw s (
                subst (λ a. Chain next' a xs)
                  (ap l.next there ∙ sym (change_self l.next before (l.next p)))
                  (Chain-frame l.next next' (l.next guy) xs
                    (λ q m.
                      change-other l.next before (l.next p) q
                        (member-ne before q xs (ground (arith, out)) m))
                    c));
            kept = λ q n h. change-other l.next before (l.next p) q n;
          }
      | inr s ↦
          let far : before ≢ guy = ground (arith, out) in
          let ih = unlink_loop-Unlinked fuel p guy l xs (omega arith) fresh c in
          record {
            l' = ih.l';
            result = rw (e, unlink_loop, s) ih.result;
            same_head = ih.same_head;
            rest = rw s (
                node (ih.kept before (λ q. far (sym q)) (ground (arith, out)) ∙ e)
                  (has-remove p guy xs fresh) ih.rest);
            kept = λ q n h. ih.kept q (ground (arith, h)) (ground (arith, h));
          }
    ]

unlink_head :
    (p : ℕ) (l : Links) (h : Option ℕ)
    → l.head ≡ h
    → unlink p l ≡ elim h [
      | none ↦ ok l
      | some guy ↦
          if guy == p then ok (record l { head = l.next p }) else unlink_loop npagerefs p guy l
    ]
unfolding unlink
unlink_head p l h e =
    ap
      (λ x. elim x [
        | none ↦ ok l
        | some guy ↦
            if guy == p then ok (record l { head = l.next p }) else unlink_loop npagerefs p guy l
      ])
      e

-- What unlinking p from the list of xs leaves.
pub record Removed (p : ℕ) (xs : List ℕ) (l : Links) (o : Outcome Links) : Type 0 where
  pub l' : Links
  pub result : o ≡ ok l'
  pub chain : Chain l'.next l'.head (remove p xs)
  pub kept : (q : ℕ) → has q xs ≡ false → l'.next q ≡ l.next q

pub unlink-Removed :
    (p : ℕ) (l : Links) (xs : List ℕ)
    → length xs ≤ npagerefs
    → Chain l.next l.head xs
    → Removed p xs l (unlink p l)
unlink-Removed p l _ few (stop e) = record {
  l' = l;
  result = unlink_head p l none e;
  chain = stop e;
  kept = λ q h. refl;
}
unlink-Removed p l _ few (node {p = guy} {xs = xs} e fresh c) = elim (Bool-cases (guy == p)) [
  | inl s ↦
      let there : guy ≡ p = (==_iff guy p).0 s in
      record {
        l' = record l { head = l.next p };
        result = unlink_head p l (some guy) e ∙ rw s refl;
        chain = rw s (subst (λ a. Chain l.next a xs) (ap l.next there) c);
        kept = λ q h. refl;
      }
  | inr s ↦
      let u = unlink_loop-Unlinked npagerefs p guy l xs (omega arith) fresh c in
      record {
        l' = u.l';
        result = unlink_head p l (some guy) e ∙ rw s u.result;
        chain = rw s (node (u.same_head ∙ e) (has-remove p guy xs fresh) u.rest);
        kept = λ q h. u.kept q (ground (arith, h)) (ground (arith, h));
      }
]
