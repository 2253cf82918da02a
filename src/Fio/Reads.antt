-- ===== src/Fio/Reads.antt =====
-- Reads at a known place of a file, and behind its end.
use bitcask_rs.Base.{
  ℕ, zero, suc, ◌-◌, ◌≤◌, ◌≡◌, refl, ap, [], ◌++◌, append_assoc, append-nil, Bytes, length, take,
  replicate, length-append, drop-append, take-append_ge, drop-all, arith,
}
use bitcask_rs.Fio.{read_at}

pub take-nil : (n : ℕ) → take {A = ℕ} n [] ≡ []
take-nil zero = refl
take-nil (suc n) = refl

-- A read that covers the front `h` at the offset brings it, and goes on behind it.
pub read_front :
    (n offset : ℕ) (pre h t : Bytes)
    → offset ≡ length pre
    → length h ≤ n
    → read_at n (pre ++ (h ++ t)) offset ≡ h ++ read_at (n - length h) t 0
unfolding read_at
read_front n offset pre h t ho hn =
    rw
      (
        drop-append offset pre (h ++ t) ho,
        take-append_ge n h t hn,
        length-append h (take (n - length h) t),
        append_assoc,
      )
      (ap (λ m. h ++ (take (n - length h) t ++ replicate m 0)) (omega arith))

-- A read of just the front brings just the front.
pub read_exact :
    (n offset : ℕ) (pre h t : Bytes)
    → offset ≡ length pre
    → n ≡ length h
    → read_at n (pre ++ (h ++ t)) offset ≡ h
read_exact n offset pre h t ho hn =
    rw (read_front n offset pre h t ho (omega arith))
      (rw (read_zero (n - length h) t (omega arith), append-nil) refl)
  where
    read_zero : (m : ℕ) (u : Bytes) → m ≡ 0 → read_at m u 0 ≡ []
    read_zero m u h0 = rw h0 (unfold read_at in refl)

-- Behind the end there are zeros.
pub read_past :
    (n offset : ℕ) (file : Bytes) → length file ≤ offset → read_at n file offset ≡ replicate n 0
unfolding read_at
read_past n offset file h =
    rw (drop-all offset file h, take-nil n) (ap (λ m. replicate m 0) (omega arith))
