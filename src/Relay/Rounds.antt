-- ===== src/Relay/Rounds.antt =====
-- One round of the loop of `cyclic_file_relay` in fdwatch/frelay.c that the system serves.
use bsl45_misc_tools.Prelude.{
  ℕ, zero, suc, ◌+◌, ◌*◌, ◌^◌, ◌%◌, ◌≤◌, ◌<◌, ◌≡◌, refl, ap, sym, ◌∙◌, List, [], ◌∷◌, ◌++◌, true,
  leb, ltb, none, pos, ◌+ℤ◌, int_laws, done, length, take, drop, arith, All, All-append, Bool-cases,
  inl, inr, append-nil, append_assoc,
}
use bsl45_misc_tools.FdIo.Transfer.{trfbuf_limit}
use bsl45_misc_tools.FdIo.Writes.{progress, IsServed}
use bsl45_misc_tools.Relay.Files.{
  Relay, Round, path_max, rolled, rollover, renamed, created, removed,
}
use bsl45_misc_tools.Relay.Loop.{pause, after_rollover, is_full, count_sent}

-- The contents of files, one after the other.
abbrev pub joined : List (List ℕ) → List ℕ
joined [] = []
joined (f ∷ files) = f ++ joined files

abbrev pub repeated : ℕ → List ℕ → List ℕ
repeated zero file = []
repeated (suc k) file = file ++ repeated k file

pub joined-append : (xs ys : List (List ℕ)) → joined (xs ++ ys) ≡ joined xs ++ joined ys
joined-append [] ys = refl
joined-append (f ∷ xs) ys =
    ap (λ l. f ++ l) (joined-append xs ys) ∙ sym (append_assoc f (joined xs) (joined ys))

-- Another turn at the end is one at the start.
pub repeated-suc : (k : ℕ) (file : List ℕ) → repeated k file ++ file ≡ repeated (suc k) file
repeated-suc zero file = sym (append-nil file)
repeated-suc (suc k) file =
    append_assoc file (repeated k file) file ∙ ap (λ l. file ++ l) (repeated-suc k file)

-- Where the next round reads on: behind a portion, or at the start again where there was nothing left.
abbrev pub rest_of : List ℕ → List ℕ → List ℕ
rest_of file [] = file
rest_of file (x ∷ xs) = drop trfbuf_limit (x ∷ xs)

-- What so many rounds read: a portion in each, or nothing at the end of the file.
abbrev pub portions : ℕ → List ℕ → List ℕ → List ℕ
portions zero file left = []
portions (suc n) file left = take trfbuf_limit left ++ portions n file (rest_of file left)

-- All that was written, to the files that were moved away and to the last one.
abbrev pub written : Relay → List ℕ
written r = joined r.moved ++ r.out

-- The bytes that were written, the place in the source, and the files that exist beside the copy.
abbrev pub Stays : Relay → Relay → Type 0
Stays r r' = (written r' ≡ written r) × (r'.source ≡ r.source) × (r'.kept ≡ r.kept)

-- One round.
abbrev pub Gains : Relay → Relay → Type 0
Gains r r' =
    (written r' ≡ written r ++ take trfbuf_limit r.source)
    × (r'.source ≡ rest_of r.file r.source)
    × (r'.kept ≡ r.kept)

-- The system serves each call of a round or interrupts it, but not the pause.
pub record IsServedRound (a : Round) : Type 0 where
  pub reads_served : All IsServed a.reads
  pub writes_served : All IsServed a.writes
  pub enough_reads : trfbuf_limit ≤ progress a.reads
  pub enough_writes : trfbuf_limit ≤ progress a.writes
  pub seeks : a.seek ≡ none
  pub renames : a.rename ≡ none
  pub syncs : a.fsync ≡ none
  pub closes : a.close ≡ none
  pub opens : a.opened ≡ none
  pub unlinks : a.unlink ≡ none

-- A file that was moved away is about as long as asked for.
abbrev pub HasSize : ℕ → List ℕ → Type 0
HasSize max_dst_len f =
    (max_dst_len ≤ length f + trfbuf_limit) × (length f < max_dst_len + trfbuf_limit)

-- All that was written, with what is left to read, is the source over and over.
pub record IsRelayed (max_dst_len : ℕ) (file : List ℕ) (r : Relay) : Type 0 where
  pub no_error : r.process.errno ≡ 0
  pub same_file : r.file ≡ file
  pub counted : r.ntotal ≡ pos (length r.out)
  pub below : length r.out < max_dst_len
  pub times : ℕ
  pub relayed : joined r.moved ++ (r.out ++ r.source) ≡ repeated times file
  pub sizes : All (HasSize max_dst_len) r.moved

add_pos : (n k : ℕ) → pos n +ℤ pos k ≡ pos (n + k)
add_pos n k = omega int_laws

is_full_lem :
    (max_dst_len n k : ℕ)
    → n + k < 2 ^ 64
    → is_full max_dst_len (pos n) (pos k) ≡ leb max_dst_len (n + k)
unfolding is_full
is_full_lem max_dst_len n k h =
    let whole : (n % 2 ^ 64 + k % 2 ^ 64) % 2 ^ 64 ≡ n + k = omega arith in
    ap (λ t. leb max_dst_len t) whole

rollover-rolled :
    (printed : ℕ → ℕ) (counter : ℕ) (a : Round) (r : Relay)
    → IsServedRound a
    → printed counter < path_max
    → rollover printed counter a r ≡ done (rolled (removed (created (renamed r))))
unfolding rollover
rollover-rolled printed counter a r s h =
    let fits : ltb (printed counter) path_max ≡ true = ground arith in
    rw (fits, s.renames, s.syncs, s.closes, s.opens, s.unlinks) refl

-- What a round needs beside a system that serves it.
pub record IsRoomy (printed : ℕ → ℕ) (max_dst_len : ℕ) : Type 0 where
  pub prints : (c : ℕ) → printed c < path_max
  pub some_room : 0 < max_dst_len
  pub no_wrap : max_dst_len + 2 * trfbuf_limit < 2 ^ 64

-- The end of a round in which `k` bytes have been written.
pub count_sent-served :
    (printed : ℕ → ℕ) (max_dst_len : ℕ) (a : Round) (r : Relay) (n k times : ℕ)
    → IsRoomy printed max_dst_len
    → IsServedRound a
    → r.process.errno ≡ 0
    → r.ntotal ≡ pos n
    → length r.out ≡ n + k
    → n < max_dst_len
    → k ≤ trfbuf_limit
    → joined r.moved ++ (r.out ++ r.source) ≡ repeated times r.file
    → All (HasSize max_dst_len) r.moved
    → (r' : Relay) × (count_sent printed max_dst_len a (pos k) r ≡ done (pause a.sleep r'))
      × IsRelayed max_dst_len r.file r'
      × Stays r r'
unfolding count_sent after_rollover
count_sent-served printed max_dst_len a r n k times roomy s z e size below few relayed sizes =
    let total : r.ntotal +ℤ pos k ≡ pos (n + k) = ap (λ t. t +ℤ pos k) e ∙ add_pos n k in
    let fullness : is_full max_dst_len (r.ntotal +ℤ pos k) (pos k) ≡ leb max_dst_len (n + k + k) =
      ap (λ t. is_full max_dst_len t (pos k)) total
      ∙ is_full_lem max_dst_len (n + k) k (omega (arith, roomy.no_wrap)) in
    elim (Bool-cases (leb max_dst_len (n + k + k))) [
      | inl full ↦
          let before : Relay = record r { ntotal = r.ntotal +ℤ pos k; nrolls = suc r.nrolls } in
          (
            record (removed (created (renamed before))) { ntotal = pos 0 },
            rw
                (
                  fullness,
                  full,
                  rollover-rolled printed (suc r.nrolls) a before s (roomy.prints (suc r.nrolls)),
                )
                refl,
            record {
              no_error = z;
              same_file = refl;
              counted = refl;
              below = roomy.some_room;
              times = times;
              relayed =
                  ap (λ l. l ++ r.source) (joined-append r.moved (r.out ∷ []))
                  ∙ append_assoc (joined r.moved) (r.out ++ []) r.source
                  ∙ ap (λ l. joined r.moved ++ (l ++ r.source)) (append-nil r.out)
                  ∙ relayed;
              sizes =
                  All-append (HasSize max_dst_len) r.moved (r.out ∷ []) sizes
                    ((ground arith, omega arith), tt);
            },
            (
              append-nil (joined (r.moved ++ (r.out ∷ [])))
                  ∙ joined-append r.moved (r.out ∷ [])
                  ∙ ap (λ l. joined r.moved ++ l) (append-nil r.out),
              refl,
              refl,
            ),
          )
      | inr room ↦ (
        record r { ntotal = r.ntotal +ℤ pos k },
        rw (fullness, room) refl,
        record {
          no_error = z;
          same_file = refl;
          counted = total ∙ ap pos (sym size);
          below = ground arith;
          times = times;
          relayed = relayed;
          sizes = sizes;
        },
        (refl, refl, refl),
      )
    ]
