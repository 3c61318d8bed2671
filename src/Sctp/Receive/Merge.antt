-- ===== src/Sctp/Receive/Merge.antt =====
-- nsctp_rx_merge of src/nano_sctp.c ends: each round frees a slot of the table.
use nanortc.Prelude.{
  Bool, Bool-cases, List, Option-cases, Outcome, [], ap, arith, buffer_too_small, done, error,
  false, fault, get_or, if◌then◌else◌, inl, inr, leb, length, length-set, ltb, none, not, refl, set,
  some, suc, sym, true, zero, ℕ, ◌&&◌, ◌+◌, ◌<◌, ◌==◌, ◌||◌, ◌∙◌, ◌∷◌, ◌≡◌, ◌≢◌, ◌≤◌, ◌⊎◌,
}
use mathlib.Core.Path.{subst}
use nanortc.Sctp.{Rx, RxEntry, is_end, max_message_size, max_recv_gap, no_rx}
use nanortc.Sctp.Receive.{
  close_up, find_next, find_pair, make_room, merge_pair, rx_merge, rx_move, slot,
}

-- Which slots are in use, and how many.
abbrev pub valids : List RxEntry → List Bool
valids [] = []
valids (e ∷ slots) = e.valid ∷ valids slots

abbrev pub count_true : List Bool → ℕ
count_true [] = 0
count_true (b ∷ bs) = (if b then 1 else 0) + count_true bs

count_true-le : (bs : List Bool) → count_true bs ≤ length bs
count_true-le [] = omega arith
count_true-le (true ∷ bs) = omega (arith, count_true-le bs)
count_true-le (false ∷ bs) = omega (arith, count_true-le bs)

pub length-valids : (slots : List RxEntry) → length (valids slots) ≡ length slots
length-valids [] = refl
length-valids (e ∷ slots) = ap suc (length-valids slots)

valids-close_up : (off n : ℕ) (slots : List RxEntry) → valids (close_up off n slots) ≡ valids slots
unfolding close_up
valids-close_up off n [] = refl
valids-close_up off n (e ∷ slots) = elim (Bool-cases (e.valid && ltb off e.data_offset)) [
  | inl h ↦ rw h (ap (λ l. e.valid ∷ l) (valids-close_up off n slots))
  | inr h ↦ rw h (ap (λ l. e.valid ∷ l) (valids-close_up off n slots))
]

valids-make_room :
    (pos off n : ℕ) (slots : List RxEntry) → valids (make_room pos off n slots) ≡ valids slots
unfolding make_room
valids-make_room pos off n [] = refl
valids-make_room pos off n (e ∷ slots) =
    elim (Bool-cases (e.valid && (leb pos e.data_offset && ltb e.data_offset off))) [
      | inl h ↦ rw h (ap (λ l. e.valid ∷ l) (valids-make_room pos off n slots))
      | inr h ↦ rw h (ap (λ l. e.valid ∷ l) (valids-make_room pos off n slots))
    ]

valids-set :
    (slots : List RxEntry) (i : ℕ) (e : RxEntry)
    → valids (set slots i e) ≡ set (valids slots) i e.valid
valids-set [] i e = refl
valids-set (s ∷ slots) zero e = refl
valids-set (s ∷ slots) (suc i) e = ap (λ l. s.valid ∷ l) (valids-set slots i e)

valid-slot :
    (slots : List RxEntry) (i : ℕ) → (get_or slots i no_rx).valid ≡ get_or (valids slots) i false
valid-slot [] i = refl
valid-slot (s ∷ slots) zero = refl
valid-slot (s ∷ slots) (suc i) = valid-slot slots i

set_same : (bs : List Bool) (i : ℕ) → set bs i (get_or bs i false) ≡ bs
set_same [] i = refl
set_same (b ∷ bs) zero = refl
set_same (b ∷ bs) (suc i) = ap (λ l. b ∷ l) (set_same bs i)

set_valid :
    (slots slots' : List RxEntry) (i : ℕ) (e : RxEntry)
    → valids slots' ≡ valids slots
    → e.valid ≡ (get_or slots i no_rx).valid
    → valids (set slots' i e) ≡ valids slots
set_valid slots slots' i e k h =
    valids-set slots' i e
    ∙ ap (λ bs. set bs i e.valid) k
    ∙ ap (set (valids slots) i) (h ∙ valid-slot slots i)
    ∙ set_same (valids slots) i

count_true-set :
    (bs : List Bool) (i : ℕ)
    → get_or bs i false ≡ true
    → suc (count_true (set bs i false)) ≡ count_true bs
count_true-set [] i h = cc
count_true-set (b ∷ bs) zero h = ground (arith, h)
count_true-set (true ∷ bs) (suc i) h = omega (arith, count_true-set bs i h)
count_true-set (false ∷ bs) (suc i) h = omega (arith, count_true-set bs i h)

pub valids-rx_move : (rx : Rx) (i pos : ℕ) → valids (rx_move rx i pos).recv_gap ≡ valids rx.recv_gap
unfolding rx_move
valids-rx_move rx i pos =
    let e = slot rx i in
    elim (Bool-cases (e.data_offset == pos || e.data_len == 0)) [
      | inl h ↦ rw h refl
      | inr h ↦ rw h (
          set_valid rx.recv_gap (make_room pos e.data_offset e.data_len rx.recv_gap) i
            (record e { data_offset = pos })
            (valids-make_room pos e.data_offset e.data_len rx.recv_gap) refl)
    ]

valid-rx_move : (rx : Rx) (i pos k : ℕ) → (slot (rx_move rx i pos) k).valid ≡ (slot rx k).valid
valid-rx_move rx i pos k =
    valid-slot (rx_move rx i pos).recv_gap k
    ∙ ap (λ bs. get_or bs k false) (valids-rx_move rx i pos)
    ∙ sym (valid-slot rx.recv_gap k)

-- A merge frees one slot and leaves the use of the others.
valids-merge_pair :
    (rx : Rx) (i j : ℕ) → valids (merge_pair rx i j).recv_gap ≡ set (valids rx.recv_gap) j false
unfolding merge_pair
valids-merge_pair rx i j =
    let rx1 = rx_move rx i 0 in
    let rx2 = rx_move rx1 j (slot rx1 i).data_len in
    let a = slot rx2 i in
    let b = slot rx2 j in
    let a' : RxEntry = record a {
      data_len = a.data_len + b.data_len;
      tsn = b.tsn;
      flags = a.flags + (if is_end b.flags && not (is_end a.flags) then 1 else 0);
      forwarded = a.forwarded || b.forwarded;
    } in
    valids-set (set rx2.recv_gap i a') j (record b { valid = false })
    ∙ ap (λ bs. set bs j false)
        (set_valid rx2.recv_gap rx2.recv_gap i a' refl refl
          ∙ valids-rx_move rx1 j (slot rx1 i).data_len
          ∙ valids-rx_move rx i 0)

find_next-valid :
    (rx : Rx) (a : RxEntry) (n j k : ℕ) → find_next rx a n j ≡ some k → (slot rx k).valid ≡ true
unfolding find_next
find_next-valid rx a zero j k h = absurd (cc)
find_next-valid rx a (suc n) j k h = ground (arith, h, find_next-valid rx a n (j + 1) k)

find_pair-valid :
    (rx : Rx) (n i : ℕ) (p : ℕ × ℕ) → find_pair rx n i ≡ some p → (slot rx p.1).valid ≡ true
unfolding find_pair
find_pair-valid rx zero i p h = absurd (cc)
find_pair-valid rx (suc n) i p h = elim (Option-cases (find_next rx (slot rx i) max_recv_gap 0)) [
  | inl e ↦ ground (arith, h, e, find_pair-valid rx n (i + 1) p)
  | inr (j, e) ↦ ground (
    arith,
    h,
    e,
    find_pair-valid rx n (i + 1) p,
    find_next-valid rx (slot rx i) max_recv_gap 0 j e,
  )
]

pub length-valids_eq :
    (xs ys : List RxEntry) (bs : List Bool)
    → valids xs ≡ bs
    → length bs ≡ length (valids ys)
    → length xs ≡ length ys
length-valids_eq xs ys bs h k = omega (arith, ap length h, k, length-valids xs, length-valids ys)

length-merge_pair : (rx : Rx) (i j : ℕ) → length (merge_pair rx i j).recv_gap ≡ length rx.recv_gap
length-merge_pair rx i j =
    length-valids_eq (merge_pair rx i j).recv_gap rx.recv_gap (set (valids rx.recv_gap) j false)
      (valids-merge_pair rx i j) (length-set (valids rx.recv_gap) j false)

count-merge_pair :
    (rx : Rx) (i j : ℕ)
    → (slot rx j).valid ≡ true
    → suc (count_true (valids (merge_pair rx i j).recv_gap)) ≡ count_true (valids rx.recv_gap)
count-merge_pair rx i j h =
    ap (λ bs. suc (count_true bs)) (valids-merge_pair rx i j)
    ∙ count_true-set (valids rx.recv_gap) j (sym (valid-slot rx.recv_gap j) ∙ h)

-- How a run of nsctp_rx_merge from `rx` ends.
abbrev pub Merged : Rx → Rx × Outcome (Unit {0}) → Type 0
Merged rx end =
    (end.1 ≢ fault)
    × (end.1 ≡ done tt → find_pair end.0 max_recv_gap 0 ≡ none)
    × (length end.0.recv_gap ≡ length rx.recv_gap)

rx_merge-step :
    (fuel : ℕ) (rx : Rx) (i j : ℕ)
    → find_pair rx max_recv_gap 0 ≡ some (i, j)
    → (rx_merge (suc fuel) rx ≡ (rx, error buffer_too_small))
      ⊎ (rx_merge (suc fuel) rx ≡ rx_merge fuel (merge_pair rx i j))
unfolding rx_merge
rx_merge-step fuel rx i j e =
    elim (Bool-cases (ltb max_message_size ((slot rx i).data_len + (slot rx j).data_len))) [
      | inl t ↦ inl (ground (arith, e, t))
      | inr t ↦ inr (ground (arith, e, t))
    ]

rx_merge-end :
    (fuel : ℕ) (rx : Rx)
    → find_pair rx max_recv_gap 0 ≡ none
    → rx_merge (suc fuel) rx ≡ (rx, done tt)
unfolding rx_merge
rx_merge-end fuel rx e = ground (arith, e)

-- Every merge frees a slot, so one round more than there are slots in use is enough.
pub rx_merge-fuel :
    (fuel : ℕ) (rx : Rx) → count_true (valids rx.recv_gap) < fuel → Merged rx (rx_merge fuel rx)
rx_merge-fuel zero rx h = absurd (omega arith)
rx_merge-fuel (suc fuel) rx h = elim (Option-cases (find_pair rx max_recv_gap 0)) [
  | inl e ↦ subst (Merged rx) (sym (rx_merge-end fuel rx e)) ((λ f. cc), (λ _. e), refl)
  | inr ((i, j), e) ↦ (elim (rx_merge-step fuel rx i j e) [
    | inl t ↦ subst (Merged rx) (sym t) ((λ f. cc), (λ f. absurd (cc)), refl)
    | inr t ↦
        (let (sound, complete, size) =
            rx_merge-fuel fuel (merge_pair rx i j) (
              omega
                (arith, count-merge_pair rx i j (find_pair-valid rx max_recv_gap 0 (i, j) e))) in
          subst (Merged rx) (sym t) (sound, complete, size ∙ length-merge_pair rx i j))
  ])
]

pub rx_merge_lem :
    (rx : Rx) → length rx.recv_gap ≡ max_recv_gap → Merged rx (rx_merge (max_recv_gap + 1) rx)
rx_merge_lem rx h =
    rx_merge-fuel (max_recv_gap + 1) rx
      (omega (arith, h, count_true-le (valids rx.recv_gap), length-valids rx.recv_gap))
