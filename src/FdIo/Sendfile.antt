-- ===== src/FdIo/Sendfile.antt =====
-- `nsendfile` of fdwatch/fdio.c. On Linux it is a call of `sendfile`; here is `bsd_nsendfile`, as it is
-- compiled on FreeBSD. The bytes that reach the other descriptor are collected in `out`.
use bsl45_misc_tools.Prelude.{
  ℕ, ◌+◌, ◌-◌, List, [], ◌∷◌, ◌++◌, Option, none, some, ◌==◌, leb, if◌then◌else◌, ℤ, pos, negsuc,
  length, take, drop,
}
use bsl45_misc_tools.FdIo.{Process, set_errno, report, interrupted, give_up_write, restore, eintr}

-- What the system answers to a call of `sendfile`: the bytes that it says it has sent, also where it
-- fails, and the error, if it does.
pub record SendAnswer : Type 0 where
  pub sbytes : ℕ
  pub error : Option ℕ

-- The local variables at the end of the loop: `at` is `*eoffset`, and `last` is `sbytes`.
pub record Looped : Type 0 where
  pub total : ℕ
  pub at : ℕ
  pub last : ℕ
  pub err : ℕ
  pub process : Process
  pub out : List ℕ

-- The loop, on the answers of the system; `none` means that the last call has got no answer yet.
unfoldable pub send_loop :
    ℕ → List SendAnswer → ℕ → List ℕ → ℕ → ℕ → ℕ → Process → List ℕ → Option Looped
send_loop flags [] count file total at last p out =
    if leb count total
    then some (record { total = total; at = at; last = last; err = 0; process = p; out = out })
    else none
send_loop flags (a ∷ answers) count file total at last p out =
    let got = take a.sbytes (take (count - total) (drop at file)) in
    let n = length got in
    let on = send_loop flags answers count file (total + n) (at + n) n p (out ++ got) in
    if leb count total
    then some (record { total = total; at = at; last = last; err = 0; process = p; out = out })
    else elim a.error [
      | none ↦ on
      | some e ↦
          let again =
            send_loop flags answers count file (total + n) (at + n) n
              (interrupted flags (set_errno e p)) (out ++ got) in
          if e == eintr
          then again
          else some (record {
            total = total;
            at = at;
            last = n;
            err = e;
            process = give_up_write flags e (set_errno e p);
            out = out ++ got;
          })
    ]

-- How the call ends. `offset` is `*offset`, where there is one.
pub record Sent : Type 0 where
  pub result : ℤ
  pub process : Process
  pub offset : Option ℤ
  pub out : List ℕ

-- The position is moved on, if some bytes are counted; `seek` is the error of that call.
unfoldable pub seek_on : Option ℕ → Looped → Looped
seek_on none l = l
seek_on (some e) l = if l.total == 0 then l else record l {
  err = if l.err == 0 then e else l.err;
  process = report e (set_errno e l.process);
}

-- The file is read from its position, which `lseek` tells, or does not.
unfoldable pub end_position : Option ℕ → Looped → Sent
end_position seek l =
    let moved = seek_on seek l in
    record {
      result = pos moved.last;
      process = restore moved.err moved.process;
      offset = none;
      out = moved.out;
    }

unfoldable pub end_offset : Looped → Sent
end_offset l = record {
  result = pos l.last;
  process = restore l.err l.process;
  offset = some (pos (l.at + l.last));
  out = l.out;
}

-- Where `lseek` stands: at a position, or it fails.
pub data Told : Type 0 where
  stands fails_to : ℕ → Told

abbrev pub map_end : (Looped → Sent) → Option Looped → Option Sent
map_end f none = none
map_end f (some l) = some (f l)

abbrev pub einval : ℕ
einval = 22

unfoldable pub bsd_nsendfile :
    ℕ → Told → Option ℕ → List SendAnswer → Option ℤ → ℕ → Process → List ℕ → List ℕ → Option Sent
bsd_nsendfile flags (fails_to e) seek answers none count p file out =
    some
      (record { result = negsuc 0; process = report e (set_errno e p); offset = none; out = out })
bsd_nsendfile flags (stands at) seek answers none count p file out =
    map_end (end_position seek) (send_loop flags answers count file 0 at 0 p out)
bsd_nsendfile flags tell seek answers (some (negsuc n)) count p file out = some (record {
  result = negsuc 0;
  process = set_errno einval p;
  offset = some (negsuc n);
  out = out;
})
bsd_nsendfile flags tell seek answers (some (pos at)) count p file out =
    map_end end_offset (send_loop flags answers count file 0 at 0 p out)
