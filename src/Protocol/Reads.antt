-- ===== src/Protocol/Reads.antt =====
-- What `_read_exact` of control/sjg_control/protocol.py reads.
use mathlib.Core.List.{append_assoc}
use scrum_jail_governance_pl.Base.{
  ℕ, zero, suc, ◌+◌, ◌-◌, ◌≤◌, ◌<◌, true, false, List, [], ◌∷◌, ◌++◌, ◌≡◌, refl, arith,
  if◌then◌else◌, ltb, length, sym, ap, ◌∙◌, subst, Bool-cases, inl, inr,
}
use scrum_jail_governance_pl.Protocol.{
  Connection, Result, ok, fault, out_of_fuel, truncated, bytes, split, put_back, recv, read_loop,
  read_exact,
}

-- The result of reading up to `size` bytes behind `chunks`: so many bytes, in order, with the others
-- left for later, or a fault where the connection ends before.
pub data Reads (connection : Connection) (chunks : List ℕ) (size : ℕ)
    : Result (List ℕ × Connection) → Type 0 where
  whole :
      (taken : List ℕ) (left : Connection)
      → bytes connection ≡ taken ++ bytes left
      → length chunks + length taken ≡ size
      → Reads connection chunks size (ok (chunks ++ taken, left))
  cut :
      length chunks + length (bytes connection) < size
      → Reads connection chunks size (fault truncated)

append-nil : (xs : List ℕ) → xs ++ [] ≡ xs
append-nil [] = refl
append-nil (x ∷ xs) = ap (λ ys. x ∷ ys) (append-nil xs)

pub length-append : (xs ys : List ℕ) → length (xs ++ ys) ≡ length xs + length ys
unfolding length
length-append [] ys = omega arith
length-append (x ∷ xs) ys = ground (arith, length-append xs ys)

split-joined : (n : ℕ) (bs : List ℕ) → (split n bs).0 ++ (split n bs).1 ≡ bs
unfolding split
split-joined zero bs = refl
split-joined (suc n) [] = refl
split-joined (suc n) (b ∷ bs) = ap (λ ys. b ∷ ys) (split-joined n bs)

split-short : (n : ℕ) (bs : List ℕ) → length (split n bs).0 ≤ n
unfolding split length
split-short zero bs = omega arith
split-short (suc n) [] = omega arith
split-short (suc n) (b ∷ bs) = ground (arith, split-short n bs)

bytes-put_back : (bs : List ℕ) (rest : Connection) → bytes (put_back bs rest) ≡ bs ++ bytes rest
unfolding bytes
bytes-put_back [] rest = refl
bytes-put_back (b ∷ bs) rest = refl

-- What `recv` returns comes next, and fits.
recv-joined :
    (n : ℕ) (connection : Connection)
    → bytes connection ≡ (recv n connection).0 ++ bytes (recv n connection).1
unfolding recv bytes
recv-joined n [] = refl
recv-joined n ((b, bs) ∷ rest) =
    let (first, others) = split n (b ∷ bs) in
    ap (λ ys. ys ++ bytes rest) (sym (split-joined n (b ∷ bs)))
    ∙ append_assoc first others (bytes rest)
    ∙ ap (λ ys. first ++ ys) (sym (bytes-put_back others rest))

recv-short : (n : ℕ) (connection : Connection) → length (recv n connection).0 ≤ n
unfolding recv length
recv-short n [] = omega arith
recv-short n ((b, bs) ∷ rest) = split-short n (b ∷ bs)

-- `recv` returns nothing only at the end.
recv-ended :
    (n : ℕ) (connection : Connection) → 0 < n → (recv n connection).0 ≡ [] → bytes connection ≡ []
unfolding recv bytes split
recv-ended zero connection p e = absurd (omega arith)
recv-ended (suc n) [] p e = refl
recv-ended (suc n) ((b, bs) ∷ rest) p e = absurd (ground (arith, e))

-- A piece read before the rest.
Reads-before :
    {result : Result (List ℕ × Connection)} (connection rest : Connection) (chunks chunk : List ℕ)
    (size : ℕ)
    → bytes connection ≡ chunk ++ bytes rest
    → Reads rest (chunks ++ chunk) size result
    → Reads connection chunks size result
Reads-before connection rest chunks chunk size joined (whole taken left e n) =
    subst (λ all. Reads connection chunks size (ok (all, left)))
      (sym (append_assoc chunks chunk taken))
      (whole (chunk ++ taken) left
        (joined ∙ ap (λ ys. chunk ++ ys) e ∙ sym (append_assoc chunk taken (bytes left)))
        (ground (arith, n, length-append chunks chunk, length-append chunk taken)))
Reads-before connection rest chunks chunk size joined (cut n) = cut (
    ground
      (arith, n, length-append chunks chunk, length-append chunk (bytes rest), ap length joined))

done-Reads :
    (chunks : List ℕ) (size : ℕ) (connection : Connection)
    → length chunks ≡ size
    → Reads connection chunks size (ok (chunks, connection))
unfolding length
done-Reads chunks size connection e =
    subst (λ all. Reads connection chunks size (ok (all, connection))) (append-nil chunks)
      (whole [] connection refl (omega arith))

-- After one `recv`.
chunk-Reads :
    (fuel : ℕ) (chunks : List ℕ) (size : ℕ) (connection : Connection) (chunk : List ℕ)
    (rest : Connection)
    → bytes connection ≡ chunk ++ bytes rest
    → length chunks + length chunk ≤ size
    → length chunks < size
    → (chunk ≡ [] → bytes connection ≡ [])
    → size ≤ length chunks + suc fuel
    → ((more : List ℕ)
        → size ≤ length more + fuel
        → length more ≤ size
        → Reads rest more size (read_loop fuel more size rest))
    → Reads connection chunks size (elim chunk [
      | [] ↦ fault truncated
      | ◌∷◌ b bs ↦ read_loop fuel (chunks ++ (b ∷ bs)) size rest
    ])
unfolding length
chunk-Reads fuel chunks size connection [] rest joined short less ended f ih =
    cut (ground (arith, less, ap length (ended refl)))
chunk-Reads fuel chunks size connection (b ∷ bs) rest joined short less ended f ih =
    Reads-before connection rest chunks (b ∷ bs) size joined (
      ih (chunks ++ (b ∷ bs)) (ground (arith, f, length-append chunks (b ∷ bs)))
        (ground (arith, short, length-append chunks (b ∷ bs))))

loop-Reads :
    (fuel : ℕ) (chunks : List ℕ) (size : ℕ) (connection : Connection)
    → size ≤ length chunks + fuel
    → length chunks ≤ size
    → Reads connection chunks size (read_loop fuel chunks size connection)
unfolding read_loop
loop-Reads zero chunks size connection f b =
    subst (λ t. Reads connection chunks size (if t then out_of_fuel else ok (chunks, connection)))
      (sym (is_full (omega arith))) (done-Reads chunks size connection (omega arith))
  where
    is_full : size ≤ length chunks → ltb (length chunks) size ≡ false
    is_full h = ground (arith, h)
loop-Reads (suc fuel) chunks size connection f b = elim (Bool-cases (ltb (length chunks) size)) [
  | inl less ↦
      let n : ℕ = size - length chunks in
      subst
        (λ t. Reads connection chunks size (elim t [
          | false ↦ ok (chunks, connection)
          | true ↦ elim (recv n connection).0 [
            | [] ↦ fault truncated
            | ◌∷◌ x xs ↦ read_loop fuel (chunks ++ (x ∷ xs)) size (recv n connection).1
          ]
        ]))
        (sym less)
        (chunk-Reads fuel chunks size connection (recv n connection).0 (recv n connection).1
          (recv-joined n connection) (ground (arith, less, recv-short n connection))
          (ground (arith, less)) (recv-ended n connection (ground (arith, less))) (omega arith)
          (λ more. loop-Reads fuel more size (recv n connection).1))
  | inr full ↦
      subst
        (λ t. Reads connection chunks size (elim t [
          | false ↦ ok (chunks, connection)
          | true ↦ elim (recv (size - length chunks) connection).0 [
            | [] ↦ fault truncated
            | ◌∷◌ x xs ↦
                read_loop fuel (chunks ++ (x ∷ xs)) size (recv (size - length chunks) connection).1
          ]
        ]))
        (sym full) (done-Reads chunks size connection (ground (arith, full, b)))
]

-- Reading a number of bytes ends within as many turns of the loop: with exactly the next so many
-- bytes and the rest left, or, only where fewer are to come, with the fault of a truncated message.
pub read_exact-Reads :
    (size : ℕ) (connection : Connection) → Reads connection [] size (read_exact size connection)
unfolding read_exact length
read_exact-Reads size connection = loop-Reads size [] size connection (omega arith) (omega arith)
