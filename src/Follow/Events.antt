-- ===== src/Follow/Events.antt =====
-- `process_event` and `re_open` of fdwatch/evrdr.c.
use bsl45_misc_tools.Prelude.{
  ℕ, zero, suc, List, [], ◌∷◌, ◌++◌, Bool, ◌||◌, Option, none, some, leb, leb_ℤ, if◌then◌else◌, ℤ,
  pos, negsuc,
}
use bsl45_misc_tools.FdIo.{Process, Answer, has_flag, set_errno, report}
use bsl45_misc_tools.FdIo.Input.{Obtained, nread}

-- `g_opt.print`, and the file that is open: what is left of it to read, what has been read of it, in
-- order, and what was left of the files that were open before. `printed` are the strings that `printf`
-- has written between its lines BEGIN and END.
pub record Watch : Type 0 where
  pub process : Process
  pub print : Bool
  pub source : List ℕ
  pub taken : List ℕ
  pub left : List (List ℕ)
  pub printed : List (List ℕ)

-- What `%s` writes of a buffer: the bytes before the first zero.
abbrev pub as_string : List ℕ → List ℕ
as_string [] = []
as_string (zero ∷ buf) = []
as_string (suc c ∷ buf) = suc c ∷ as_string buf

-- `struct kevent`: the filter with the field that is looked at. Both are for the open file.
pub data Event : Type 0 where
  read_event : ℤ → Event
  vnode_event : ℕ → Event
  other_event : Event

-- The flags of FreeBSD.
abbrev pub note_delete : ℕ
note_delete = 1

abbrev pub note_rename : ℕ
note_rename = 32

-- The bytes of the buffer, without the one for a final zero.
abbrev pub buf_len : ℕ
buf_len = 1024

abbrev pub len_of : ℕ → ℕ
len_of offset = if leb (suc buf_len) offset then buf_len else offset

-- `rc`, and whether the flag to open the file again is set.
pub record Processed : Type 0 where
  pub rc : ℤ
  pub reopen : Bool
  pub watch : Watch

abbrev pub processed : ℤ → Bool → Watch → Processed
processed rc reopen w = record { rc = rc; reopen = reopen; watch = w }

-- After the read: what it has got is printed, if that is asked for.
unfoldable pub after_nread : Bool → Watch → Option Obtained → Option Processed
after_nread reopen w none = none
after_nread reopen w (some r) =
    let w' : Watch = record w {
      process = r.process;
      source = r.source;
      taken = w.taken ++ r.buf;
    } in
    if leb_ℤ r.result (pos 0)
    then some (processed (negsuc 0) reopen w')
    else some (
        processed (pos 0) reopen (record w' {
          printed = if w.print then w.printed ++ (as_string r.buf ∷ []) else w.printed;
        }))

-- The answers are those that `read` gets.
unfoldable pub process_event : List Answer → Event → Bool → Watch → Option Processed
process_event answers (read_event (pos zero)) reopen w = some (processed (pos 0) reopen w)
process_event answers (read_event (negsuc n)) reopen w = some (processed (pos 0) reopen w)
process_event answers (read_event (pos (suc n))) reopen w =
    after_nread reopen w (nread 0 answers (len_of (suc n)) w.process w.source)
process_event answers (vnode_event fflags) reopen w =
    some
      (processed (pos 0) (reopen || has_flag fflags note_delete || has_flag fflags note_rename) w)
process_event answers other_event reopen w = some (processed (pos 0) reopen w)

-- What the system answers when the file is opened again: the errors of the calls that fail, and what the
-- new file holds.
pub record Reopening : Type 0 where
  pub close : Option ℕ
  pub opened : Option ℕ
  pub add_vnode : Option ℕ
  pub add_read : Option ℕ
  pub contents : List ℕ

abbrev pub failing : ℕ → Watch → ℤ × Watch
failing e w = (negsuc 0, record w { process = report e (set_errno e w.process) })

abbrev pub tried : Option ℕ → Watch → (Watch → ℤ × Watch) → ℤ × Watch
tried none w next = next w
tried (some e) w next = failing e w

abbrev pub kq_add : Reopening → Watch → ℤ × Watch
kq_add a w = tried a.add_vnode w λ w1. tried a.add_read w1 λ w2. (pos 0, w2)

unfoldable pub re_open : Reopening → Watch → ℤ × Watch
re_open a w = tried a.close w λ w1. tried a.opened w1 λ w2.
    kq_add a (record w2 { source = a.contents; taken = []; left = w2.left ++ (w2.source ∷ []) })
