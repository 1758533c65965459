-- ===== src/Wal/Chunks.antt =====
-- The chunks of `writev_nbuf` of wal/wbuft.c.
use bsl45_misc_tools.Prelude.{
  ℕ, zero, suc, ◌+◌, ◌*◌, ◌≤◌, ◌<◌, ◌≡◌, refl, sym, ◌∙◌, ap, List, [], ◌∷◌, ◌++◌, false, not, ltb,
  pos, done, set, replicate, length, length-append, take, drop, take_all, take-append-drop,
  length-drop, arith, append-nil, append_assoc,
}
use bsl45_misc_tools.Wal.Writing.{split, part_len, concat}

concat-append : (xs ys : List (List ℕ)) → concat (xs ++ ys) ≡ concat xs ++ concat ys
concat-append [] ys = refl
concat-append (x ∷ xs) ys =
    ap (λ l. x ++ l) (concat-append xs ys) ∙ sym (append_assoc x (concat xs) (concat ys))

concat-replicate : (n : ℕ) → concat (replicate n []) ≡ []
concat-replicate zero = refl
concat-replicate (suc n) = concat-replicate n

set-append :
    (before : List (List ℕ)) (x v : List ℕ) (after : List (List ℕ))
    → set (before ++ (x ∷ after)) (length before) v ≡ before ++ (v ∷ after)
set-append [] x v after = refl
set-append (b ∷ before) x v after = ap (λ l. b ∷ l) (set-append before x v after)

drop_all : (buf : List ℕ) → drop (length buf) buf ≡ []
drop_all [] = refl
drop_all (b ∷ buf) = drop_all buf

-- One vector is filled.
split-step :
    (left chunk_len b : ℕ) (buf : List ℕ) (before : List (List ℕ))
    → part_len left chunk_len (length (b ∷ buf)) ≤ length (b ∷ buf)
    → let n = part_len left chunk_len (length (b ∷ buf)) in
      split (suc left) (length before) chunk_len (b ∷ buf) (before ++ replicate (suc left) [])
      ≡ split left
          (suc (length before))
          chunk_len
          (drop n (b ∷ buf))
          (before ++ (take n (b ∷ buf) ∷ replicate left []))
unfolding split
split-step left chunk_len b buf before fits =
    let iov = before ++ replicate (suc left) [] in
    let n = part_len left chunk_len (length (b ∷ buf)) in
    let inside : not (ltb (length before) (length iov)) ≡ false =
      ground (arith, length-append before (replicate (suc left) [])) in
    let enough : ltb (length (b ∷ buf)) n ≡ false = ground (arith, fits) in
    let filled = set-append before [] (take n (b ∷ buf)) (replicate left []) in
    rw (inside, enough)
      (ap (λ l. split left (suc (length before)) chunk_len (drop n (b ∷ buf)) l) filled)

-- From some vector on: none is stored outside of the array, nothing is left over, and the vectors hold
-- the bytes of the buffer, each once and in order.
split_from :
    (left chunk_len : ℕ) (buf : List ℕ) (before : List (List ℕ))
    → suc left * chunk_len ≤ length buf
    → (iov : List (List ℕ)) × (split
          (suc left)
          (length before)
          chunk_len
          buf
          (before ++ replicate (suc left) [])
        ≡ done (iov, pos 0))
      × (concat iov ≡ concat before ++ buf)
split_from left chunk_len [] before fits = (
  before ++ replicate (suc left) [],
  unfold split in refl,
  concat-append before (replicate (suc left) [])
      ∙ ap (λ l. concat before ++ l) (concat-replicate (suc left)),
)
split_from zero chunk_len (b ∷ buf) before fits = (
  before ++ ((b ∷ buf) ∷ []),
  split-step zero chunk_len b buf before (omega arith)
      ∙ ap
          (λ l.
            split zero (suc (length before)) chunk_len (drop (length (b ∷ buf)) (b ∷ buf))
              (before ++ (l ∷ [])))
          (take_all (length (b ∷ buf)) (b ∷ buf) (omega arith))
      ∙ unfold split in
        ap (λ l. done (before ++ ((b ∷ buf) ∷ []), pos (length l))) (drop_all (b ∷ buf)),
  concat-append before ((b ∷ buf) ∷ []) ∙ ap (λ l. concat before ++ l) (append-nil (b ∷ buf)),
)
split_from (suc left) chunk_len (b ∷ buf) before fits =
    let bytes = b ∷ buf in
    let part = take chunk_len bytes in
    let more : suc (suc left) * chunk_len ≡ chunk_len + suc left * chunk_len = omega arith in
    let inside : chunk_len ≤ length bytes = omega (arith, fits) in
    let next = before ++ (part ∷ []) in
    let (iov, run, joined) =
      split_from left chunk_len (drop chunk_len bytes) next
        (omega (arith, fits, length-drop chunk_len bytes)) in
    let count : length next ≡ suc (length before) =
      omega (arith, length-append before (part ∷ [])) in
    (
      iov,
      split-step (suc left) chunk_len b buf before inside
          ∙ ap (λ l. split (suc left) (suc (length before)) chunk_len (drop chunk_len bytes) l)
              (sym (append_assoc before (part ∷ []) (replicate (suc left) [])))
          ∙ ap
              (λ k.
                split (suc left) k chunk_len (drop chunk_len bytes)
                  (next ++ replicate (suc left) []))
              (sym count)
          ∙ run,
      joined
          ∙ ap (λ l. l ++ drop chunk_len bytes)
              (concat-append before (part ∷ []) ∙ ap (λ l. concat before ++ l) (append-nil part))
          ∙ append_assoc (concat before) part (drop chunk_len bytes)
          ∙ ap (λ l. concat before ++ l) (take-append-drop chunk_len bytes),
    )

-- All the vectors.
pub split_lem :
    (num_chunks chunk_len : ℕ) (buf : List ℕ)
    → 0 < num_chunks
    → num_chunks * chunk_len ≤ length buf
    → (iov : List (List ℕ)) × (split num_chunks 0 chunk_len buf (replicate num_chunks [])
        ≡ done (iov, pos 0))
      × (concat iov ≡ buf)
split_lem zero chunk_len buf h fits = absurd (omega arith)
split_lem (suc left) chunk_len buf h fits = split_from left chunk_len buf [] fits
