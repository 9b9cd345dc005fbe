-- ===== src/Sched/Links.antt =====
-- src/prims.rs: a chain of processes, linked by their nextLink and marked with their list by myList.
use smallishtalk.Base.{
  ◌≡◌, ◌≢◌, refl, sym, ap, ◌∙◌, subst, inl, inr, List, [], ◌∷◌, ◌++◌, In, Distinct, ◌==◌,
  if◌then◌else◌, arith,
}
use smallishtalk.Treaty.Layout.{process_next_link, process_my_list}
use smallishtalk.Value.{Value}
use smallishtalk.Sched.Slots.{View}

abbrev pub head_or : Value → List Value → Value
head_or nil [] = nil
head_or nil (p ∷ ps) = p

abbrev pub last_or : Value → List Value → Value
last_or nil [] = nil
last_or nil (p ∷ ps) = last_or p ps

-- Each process points to the next one, the last one to nil, and all to the list.
abbrev pub Links : View → (nil list : Value) → List Value → Type 0
Links V nil list [] = Unit
Links V nil list (p ∷ ps) =
    (V p process_next_link ≡ head_or nil ps) × (V p process_my_list ≡ list) × Links V nil list ps

pub last_or-In : (x : Value) (ps : List Value) → In (last_or x ps) (x ∷ ps)
last_or-In x [] = inl refl
last_or-In x (p ∷ ps) = inr (last_or-In p ps)

pub last_or-snoc : (x p : Value) (ps : List Value) → last_or x (ps ++ p ∷ []) ≡ p
last_or-snoc x p [] = refl
last_or-snoc x p (q ∷ ps) = last_or-snoc q p ps

-- Links are in the slots of the processes alone.
pub Links-frame :
    (V V' : View) (nil list : Value) (ps : List Value)
    → ((b : Value)
        → In b ps
        → (V' b process_next_link ≡ V b process_next_link)
          × (V' b process_my_list ≡ V b process_my_list))
    → Links V nil list ps
    → Links V' nil list ps
Links-frame V V' nil list [] same l = tt
Links-frame V V' nil list (p ∷ ps) same l = (
  (same p (inl refl)).0 ∙ l.0,
  (same p (inl refl)).1 ∙ l.1,
  Links-frame V V' nil list ps (λ b h. same b (inr h)) l.2,
)

-- A process is put at the end by linking the last one to it.
pub Links-snoc :
    (V V' : View) (nil list p x : Value) (ps : List Value)
    → Distinct (x ∷ ps)
    → ((b : Value)
        → In b (x ∷ ps)
        → (V' b process_next_link ≡ (if b == last_or x ps then p else V b process_next_link))
          × (V' b process_my_list ≡ V b process_my_list))
    → V' p process_next_link ≡ nil
    → V' p process_my_list ≡ list
    → Links V nil list (x ∷ ps)
    → Links V' nil list (x ∷ ps ++ p ∷ [])
Links-snoc V V' nil list p x [] d same e f l =
    (ground (arith, (same x (inl refl)).0), (same x (inl refl)).1 ∙ l.1, (e, f, tt))
Links-snoc V V' nil list p x (y ∷ ys) d same e f l =
    let other : x ≢ last_or y ys =
      λ z. d.0 (subst (λ (t : Value). In t (y ∷ ys)) (sym z) (last_or-In y ys)) in
    (
      ground (arith, (same x (inl refl)).0, l.0, other),
      (same x (inl refl)).1 ∙ l.1,
      Links-snoc V V' nil list p y ys d.1 (λ b h. same b (inr h)) e f l.2,
    )

pub In-left : (b : Value) (xs ys : List Value) → In b xs → In b (xs ++ ys)
In-left b (x ∷ xs) ys (inl e) = inl e
In-left b (x ∷ xs) ys (inr h) = inr (In-left b xs ys h)
In-left b [] ys h = elim h [ ]

pub In-right : (b : Value) (xs ys : List Value) → In b ys → In b (xs ++ ys)
In-right b [] ys h = h
In-right b (x ∷ xs) ys h = inr (In-right b xs ys h)

pub append-[] : (xs : List Value) → xs ++ [] ≡ xs
append-[] [] = refl
append-[] (x ∷ xs) = ap (λ (ys : List Value). x ∷ ys) (append-[] xs)

pub In-middle : (p : Value) (ps qs : List Value) → In p (ps ++ p ∷ qs)
In-middle p [] qs = inl refl
In-middle p (x ∷ xs) qs = inr (In-middle p xs qs)

-- A process is taken out by linking the one before it past it.
pub Links-unlink :
    (V V' : View) (nil list p x : Value) (ps qs : List Value)
    → Distinct (x ∷ ps ++ p ∷ qs)
    → ((b : Value)
        → In b (x ∷ ps ++ p ∷ qs)
        → b ≢ p
        → (V' b process_next_link
            ≡ (if b == last_or x ps then head_or nil qs else V b process_next_link))
          × (V' b process_my_list ≡ V b process_my_list))
    → Links V nil list (x ∷ ps ++ p ∷ qs)
    → Links V' nil list (x ∷ ps ++ qs)
Links-unlink V V' nil list p x [] qs d same l =
    let here = same x (inl refl) (λ z. d.0 (inl z)) in
    (
      ground (arith, here.0),
      here.1 ∙ l.1,
      Links-frame V V' nil list qs
          (λ b h.
            let other : b ≢ x = λ z. d.0 (inr (subst (λ (t : Value). In t qs) z h)) in
            let not_p : b ≢ p = λ z. d.1.0 (subst (λ (t : Value). In t qs) z h) in
            let there = same b (inr (inr h)) not_p in (ground (arith, there.0, other), there.1))
          l.2.2,
    )
Links-unlink V V' nil list p x (y ∷ ys) qs d same l =
    let other : x ≢ last_or y ys = λ z. d.0 (
      subst (λ (t : Value). In t (y ∷ ys ++ p ∷ qs)) (sym z)
        (In-left (last_or y ys) (y ∷ ys) (p ∷ qs) (last_or-In y ys))) in
    let not_p : x ≢ p =
      λ z. d.0 (subst (λ (t : Value). In t (y ∷ ys ++ p ∷ qs)) (sym z) (In-middle p (y ∷ ys) qs)) in
    let here = same x (inl refl) not_p in
    (
      ground (arith, here.0, l.0, other),
      here.1 ∙ l.1,
      Links-unlink V V' nil list p y ys qs d.1 (λ b h. same b (inr h)) l.2,
    )

-- The list without the process.
pub In-without : (b p : Value) (ps qs : List Value) → In b (ps ++ qs) → In b (ps ++ p ∷ qs)
In-without b p [] qs h = inr h
In-without b p (x ∷ xs) qs (inl e) = inl e
In-without b p (x ∷ xs) qs (inr h) = inr (In-without b p xs qs h)

pub Distinct-without :
    (p : Value) (ps qs : List Value)
    → Distinct (ps ++ p ∷ qs)
    → Distinct (ps ++ qs) × ¬ In p (ps ++ qs)
Distinct-without p [] qs d = (d.1, d.0)
Distinct-without p (x ∷ xs) qs d =
    let ih = Distinct-without p xs qs d.1 in
    (
      ((λ h. d.0 (In-without x p xs qs h)), ih.0),
      (λ h. elim h [
        | inl e ↦ d.0 (subst (λ (t : Value). In t (xs ++ p ∷ qs)) e (In-middle p xs qs))
        | inr i ↦ ih.1 i
      ]),
    )

pub last_or-append : (x y : Value) (ps qs : List Value) → last_or x (ps ++ y ∷ qs) ≡ last_or y qs
last_or-append x y [] qs = refl
last_or-append x y (p ∷ ps) qs = last_or-append p y ps qs
