-- ===== src/Sctp/Receive/Move.antt =====
-- The three reversals of nsctp_rx_move in src/nano_sctp.c move a block of bytes.
use nanortc.Prelude.{
  ==_ne, Bool-cases, List, [], ap, arith, get_or, if◌then◌else◌, inl, inr, leb, length, length-set,
  ltb, ltb→lt, refl, set, suc, zero, ℕ, ◌&&◌, ◌*◌, ◌+◌, ◌-◌, ◌/◌, ◌<◌, ◌==◌, ◌||◌, ◌∙◌, ◌∷◌, ◌≡◌,
  ◌≤◌, ◌⊎◌,
}
use nanortc.Sctp.Receive.{move_bytes, reverse, reverse_from, swap_bytes}

get_or-set :
    (xs : List ℕ) (i v j : ℕ)
    → i < length xs
    → get_or (set xs i v) j 0 ≡ (if j == i then v else get_or xs j 0)
get_or-set [] i v j h = absurd (omega arith)
get_or-set (x ∷ xs) zero v zero h = refl
get_or-set (x ∷ xs) zero v (suc j) h = rw (==_ne (suc j) 0 (omega arith)) refl
get_or-set (x ∷ xs) (suc i) v zero h = rw (==_ne 0 (suc i) (omega arith)) refl
get_or-set (x ∷ xs) (suc i) v (suc j) h = ground (arith, get_or-set xs i v j (omega arith))

-- Where the byte at `x` comes from after round `i`.
swapped : ℕ → ℕ → ℕ → ℕ → ℕ
swapped p n i x = if x == p + i then p + (n - 1 - i) else if x == p + (n - 1 - i) then p + i else x

-- Where it comes from after the rounds from `i` on, `k` of them.
mirrored : ℕ → ℕ → ℕ → ℕ → ℕ → ℕ
mirrored p n i k j =
    if (leb (p + i) j && ltb j (p + i + k)) || (leb (p + n - i - k) j && ltb j (p + n - i))
    then p + (n - 1 - (j - p))
    else j

mirrored-step :
    (p n i k j : ℕ)
    → 2 * (i + suc k) ≤ n
    → swapped p n i (mirrored p n (i + 1) k j) ≡ mirrored p n i (suc k) j
unfolding swapped mirrored
mirrored-step p n i k j h = ground arith

mirrored_none : (p n i j : ℕ) → j ≡ mirrored p n i 0 j
unfolding mirrored
mirrored_none p n i j = ground arith

length-swap_bytes : (buf : List ℕ) (p n i : ℕ) → length (swap_bytes buf p n i) ≡ length buf
unfolding swap_bytes
length-swap_bytes buf p n i =
    length-set (set buf (p + i) (get_or buf (p + (n - 1 - i)) 0)) (p + (n - 1 - i))
      (get_or buf (p + i) 0)
    ∙ length-set buf (p + i) (get_or buf (p + (n - 1 - i)) 0)

get_or-swap_bytes :
    (buf : List ℕ) (p n i x : ℕ)
    → i < n
    → p + n ≤ length buf
    → get_or (swap_bytes buf p n i) x 0 ≡ get_or buf (swapped p n i x) 0
unfolding swap_bytes swapped
get_or-swap_bytes buf p n i x h l =
    let a = get_or buf (p + (n - 1 - i)) 0 in
    let once = set buf (p + i) a in
    ground (
      arith,
      get_or-set once (p + (n - 1 - i)) (get_or buf (p + i) 0) x
          (omega (arith, length-set buf (p + i) a)),
      get_or-set buf (p + i) a x (omega arith),
    )

get_or-reverse_from :
    (buf : List ℕ) (p n k i j : ℕ)
    → 2 * (i + k) ≤ n
    → p + n ≤ length buf
    → get_or (reverse_from buf p n k i) j 0 ≡ get_or buf (mirrored p n i k j) 0
unfolding reverse_from
get_or-reverse_from buf p n zero i j h l = ap (λ x. get_or buf x 0) (mirrored_none p n i j)
get_or-reverse_from buf p n (suc k) i j h l =
    get_or-reverse_from (swap_bytes buf p n i) p n k (i + 1) j (omega arith)
      (omega (arith, length-swap_bytes buf p n i))
    ∙ get_or-swap_bytes buf p n i (mirrored p n (i + 1) k j) (omega arith) l
    ∙ ap (λ x. get_or buf x 0) (mirrored-step p n i k j h)

length-reverse_from : (buf : List ℕ) (p n k i : ℕ) → length (reverse_from buf p n k i) ≡ length buf
unfolding reverse_from
length-reverse_from buf p n zero i = refl
length-reverse_from buf p n (suc k) i =
    length-reverse_from (swap_bytes buf p n i) p n k (i + 1) ∙ length-swap_bytes buf p n i

-- Where a byte comes from when `n` bytes at `p` are reversed.
mirror : ℕ → ℕ → ℕ → ℕ
mirror p n j = if leb p j && ltb j (p + n) then p + (n - 1 - (j - p)) else j

mirrored_all : (p n j : ℕ) → mirrored p n 0 (n / 2) j ≡ mirror p n j
unfolding mirrored mirror
mirrored_all p n j = ground arith

length-reverse : (buf : List ℕ) (p n : ℕ) → length (reverse buf p n) ≡ length buf
unfolding reverse
length-reverse buf p n = length-reverse_from buf p n (n / 2) 0

get_or-reverse :
    (buf : List ℕ) (p n j : ℕ)
    → p + n ≤ length buf
    → get_or (reverse buf p n) j 0 ≡ get_or buf (mirror p n j) 0
unfolding reverse
get_or-reverse buf p n j l =
    get_or-reverse_from buf p n (n / 2) 0 j (omega arith) l
    ∙ ap (λ x. get_or buf x 0) (mirrored_all p n j)

-- Where a byte comes from when the `n` bytes at `off` move to `pos`.
abbrev pub source : ℕ → ℕ → ℕ → ℕ → ℕ
source pos off n j =
    if leb pos j && ltb j (pos + n)
    then j + (off - pos)
    else if leb (pos + n) j && ltb j (off + n)
    then j - n
    else j

mirror_in : (p n j : ℕ) → p ≤ j → j < p + n → mirror p n j ≡ p + (n - 1 - (j - p))
unfolding mirror
mirror_in p n j h k = ground arith

mirror_out : (p n j : ℕ) → (j < p) ⊎ (p + n ≤ j) → mirror p n j ≡ j
unfolding mirror
mirror_out p n j (inl h) = ground arith
mirror_out p n j (inr h) = ground arith

module _ (pos off n j : ℕ) (h : pos ≤ off) where
  thrice : ℕ
  thrice = mirror pos (off - pos) (mirror off n (mirror pos (off - pos + n) j))

  chain :
      (a b c : ℕ)
      → mirror pos (off - pos + n) j ≡ a
      → mirror off n a ≡ b
      → mirror pos (off - pos) b ≡ c
      → thrice ≡ c
  unfolding thrice
  chain a b c e f g =
      ap (λ x. mirror pos (off - pos) (mirror off n x)) e ∙ ap (mirror pos (off - pos)) f ∙ g

  mirrors_outside : (j < pos) ⊎ (off + n ≤ j) → thrice ≡ j
  mirrors_outside (inl o) =
      chain j j j (mirror_out pos (off - pos + n) j (inl o))
        (mirror_out off n j (inl (omega (arith, o, h)))) (mirror_out pos (off - pos) j (inl o))
  mirrors_outside (inr o) =
      chain j j j (mirror_out pos (off - pos + n) j (inr (omega (arith, o, h))))
        (mirror_out off n j (inr o)) (mirror_out pos (off - pos) j (inr (omega (arith, o, h))))

  mirrors_block : pos ≤ j → j < pos + n → thrice ≡ j + (off - pos)
  mirrors_block l r =
      let a = pos + (off - pos + n - 1 - (j - pos)) in
      chain a (j + (off - pos)) (j + (off - pos))
        (mirror_in pos (off - pos + n) j l (omega (arith, r, h)))
        (mirror_in off n a (omega (arith, l, r, h)) (omega (arith, l, r, h))
          ∙ omega (arith, l, r, h))
        (mirror_out pos (off - pos) (j + (off - pos)) (inr (omega (arith, l, h))))

  mirrors_between : pos + n ≤ j → j < off + n → thrice ≡ j - n
  mirrors_between l r =
      let a = pos + (off - pos + n - 1 - (j - pos)) in
      chain a a (j - n) (mirror_in pos (off - pos + n) j (omega (arith, l)) (omega (arith, r, h)))
        (mirror_out off n a (inl (omega (arith, l, r, h))))
        (mirror_in pos (off - pos) a (omega arith) (omega (arith, l, r, h))
          ∙ omega (arith, l, r, h))

  mirrors-source : thrice ≡ source pos off n j
  mirrors-source = elim (Bool-cases (leb pos j && ltb j (pos + n))) [
    | inl t ↦ rw t (mirrors_block (ground (arith, t)) (ground (arith, t)))
    | inr t ↦ elim (Bool-cases (leb (pos + n) j && ltb j (off + n))) [
      | inl u ↦ rw (t, u) (mirrors_between (ground (arith, u)) (ground (arith, u)))
      | inr u ↦
          rw (t, u)
            (elim (Bool-cases (ltb j pos)) [
              | inl low ↦ mirrors_outside (inl (ltb→lt j pos low))
              | inr high ↦ mirrors_outside (inr (ground (arith, t, u, high)))
            ])
    ]
  ]

-- The three reversals of nsctp_rx_move move a block: where `pos` is at most `off` and the block
-- lies in the buffer, its `n` bytes stand at `pos` afterwards, in order, the bytes between follow
-- them in order, and every other byte is where it was.
pub get_or-move_bytes :
    (buf : List ℕ) (pos off n j : ℕ)
    → pos ≤ off
    → off + n ≤ length buf
    → get_or (move_bytes buf pos off n) j 0 ≡ get_or buf (source pos off n j) 0
unfolding move_bytes thrice
get_or-move_bytes buf pos off n j h l =
    let first = reverse buf pos (off - pos) in
    let second = reverse first off n in
    let lf = length-reverse buf pos (off - pos) in
    let ls = length-reverse first off n in
    get_or-reverse second pos (off - pos + n) j (omega (arith, h, l, lf, ls))
    ∙ get_or-reverse first off n (mirror pos (off - pos + n) j) (omega (arith, l, lf))
    ∙ get_or-reverse buf pos (off - pos) (mirror off n (mirror pos (off - pos + n) j))
        (omega (arith, h, l))
    ∙ ap (λ x. get_or buf x 0) (mirrors-source pos off n j h)
