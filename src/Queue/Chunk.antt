-- ===== src/Queue/Chunk.antt =====
-- `updateWorkChunkSize` of src/blocks/RunPotentialParamsQueue.cpp.
use structure_pipe.Base.{
  ℕ, zero, suc, ◌+◌, ◌-◌, ◌*◌, ◌^◌, ◌≤◌, ◌<◌, ◌≡◌, refl, ap, inl, inr, false, none, some, ltb,
  arith, Bool-cases,
}
use structure_pipe.Queue.{grow, work_chunk_size}

le_mul : (mean m : ℕ) → 0 < mean → m ≤ mean * m
le_mul zero m h = elim h [ ]
le_mul (suc mean) m h = omega (arith, h)

-- A number of work items that takes the target time, and without the last of them no longer.
abbrev pub FitsTarget : ℕ → ℕ → ℕ → Type 0
FitsTarget mean target n = (m : ℕ) × (n ≡ suc m) × (mean * m ≤ target) × (target ≤ mean * n)

grow-FitsTarget :
    (fuel mean target i m : ℕ)
    → i ≡ suc m
    → 0 < mean
    → mean * m ≤ target
    → target < m + fuel
    → (n : ℕ) × (grow fuel mean target i ≡ some n) × FitsTarget mean target n
unfolding grow
grow-FitsTarget zero mean target i m s p h f = absurd (omega (arith, le_mul mean m p, h, f))
grow-FitsTarget (suc fuel) mean target i m s p h f =
    let at : mean * i ≡ mean * suc m = ap (λ q. mean * q) s in
    elim (Bool-cases (ltb (mean * i) target)) [
      | inl less ↦
          let less' : mean * suc m < target = ground (arith, less, at) in
          let (n, e, fits) =
            grow-FitsTarget fuel mean target (i + 1) (suc m) (omega (arith, s)) p
              (omega (arith, less')) (omega (arith, f)) in
          (n, rw (less, grow) e, fits)
      | inr enough ↦ (i, rw (enough, grow) refl, (m, s, h, ground (arith, enough)))
    ]

-- `updateWorkChunkSize`, for a mean duration that is not 0 and a target below 2 ^ 31 - 1: the
-- loop ends without overflow of its counter, and the new chunk has at least one item; at the
-- mean duration it takes at least the target time, and without its last item at most the target
-- time.
pub work_chunk_size-FitsTarget :
    (mean target chunk : ℕ)
    → 0 < mean
    → target + 1 < 2 ^ 31
    → (n : ℕ) × (work_chunk_size mean target chunk ≡ some n) × FitsTarget mean target n
unfolding work_chunk_size
work_chunk_size-FitsTarget mean target chunk p small = elim (Bool-cases (ltb target mean)) [
  | inl long ↦ (1, ground (arith, long), (0, refl, omega arith, ground (arith, long)))
  | inr short ↦ elim (Bool-cases (ltb target (mean * chunk))) [
    | inl over ↦
        let (n, e, fits) =
          grow-FitsTarget (2 ^ 31 - 1) mean target 1 0 (omega arith) p (omega arith)
            (omega (arith, small)) in
        (n, rw (short, over, work_chunk_size) e, fits)
    | inr under ↦
        let h : mean * chunk ≤ target = ground (arith, under) in
        let (n, e, fits) =
          grow-FitsTarget (2 ^ 31 - (chunk + 1)) mean target (chunk + 1) chunk (omega arith) p h
            (omega (arith, small, le_mul mean chunk p, h)) in
        (n, rw (short, under, work_chunk_size) e, fits)
  ]
]

-- `updateWorkChunkSize` with a mean duration of 0 and a target that is not 0: the counter of the
-- loop overflows.
pub work_chunk_size-instant :
    (target chunk : ℕ) → 0 < target → work_chunk_size 0 target chunk ≡ none
unfolding work_chunk_size
work_chunk_size-instant target chunk p =
    let f : ltb target 0 ≡ false = ground arith in
    let g : ltb target (0 * chunk) ≡ false = ground arith in
    rw (f, g, work_chunk_size) (never (2 ^ 31 - (chunk + 1)) (chunk + 1))
  where
    never : (fuel i : ℕ) → grow fuel 0 target i ≡ none
    never zero i = unfold grow in refl
    never (suc fuel) i = unfold grow in ground (arith, never fuel (i + 1), p)
