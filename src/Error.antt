-- ===== src/Error.antt =====
-- include/error.h and src/error.c: the error state that each thread has, and the macros that
-- report into it. A failed `assert` ends the program and is `none`.
pub mod Valid
pub mod Message
pub mod Trace
mod Examples
use wednesday.Base.{ℕ, zero, suc, ◌+◌, ◌-◌, ◌≤◌, ◌<◌, ◌≡◌, Memory, store, ltb, leb, ◌==◌}
use wednesday.Base.{Option, none, some, if◌then◌else◌, ◌||◌, List, [], ◌∷◌, min}
use Prim.Native.String.{String}

abbrev pub max_errors : ℕ
max_errors = 32

-- `sizeof(frame->msg)`
abbrev pub msg_size : ℕ
msg_size = 128

-- `error_frame_t`. `msg` is the array `msg[128]`, its bytes at the addresses 0 to 127. The code is
-- the bit pattern of an `int32_t`.
pub record ErrorFrame : Type 0 where
  pub file : String
  pub func : String
  pub line : ℕ
  pub code : ℕ
  pub msg : Memory

-- The three thread-local variables of error.c.
pub record ErrorState : Type 0 where
  pub error_list : ℕ → ErrorFrame
  pub error_count : ℕ
  pub error_code : ℕ

pub push_frame : String → String → ℕ → ℕ → ErrorState → ErrorState
push_frame file func line code s =
    let old = s.error_list s.error_count in
    let frame : ErrorFrame = record {
      file = file;
      func = func;
      line = line;
      code = code;
      msg = store old.msg 0 0;
    } in
    if leb max_errors s.error_count then record s { error_code = code } else record {
      error_list = store s.error_list s.error_count frame;
      error_count = s.error_count + 1;
      error_code = code;
    }

unfoldable pub error_push : String → String → ℕ → ℕ → ErrorState → Option ErrorState
error_push file func line code s =
    if code == 0 then none else some (push_frame file func line code s)

pub error_get_code : ErrorState → ℕ
error_get_code s = s.error_code

pub error_trace_length : ErrorState → ℕ
error_trace_length s = min s.error_count max_errors

-- The pointer `error_list + n` is the index `n`; `none` is the null pointer.
pub error_trace_nth : ℕ → ErrorState → Option ℕ
error_trace_nth n s = if leb s.error_count n || leb max_errors s.error_count then none else some n

pub error_clear : ErrorState → ErrorState
error_clear s = record s { error_code = 0; error_count = 0 }

-- Bytes before the first NUL from `a` on, of `fuel` bytes at most.
pub strlen : ℕ → Memory → ℕ → ℕ
strlen zero m a = 0
strlen (suc fuel) m a = let rest = strlen fuel m (a + 1) in if m a == 0 then 0 else suc rest

-- What `vsnprintf(m + a, size, …)` stores of the formatted `text`.
pub vsnprintf : Memory → ℕ → ℕ → List ℕ → Memory
vsnprintf m a zero text = m
vsnprintf m a (suc size) [] = store m a 0
vsnprintf m a (suc zero) (c ∷ text) = store m a 0
vsnprintf m a (suc (suc size)) (c ∷ text) = store (vsnprintf m (a + 1) (suc size) text) a c

-- The part of `error_append_message` behind its tests: `vsnprintf` is handed `frame->msg` itself.
pub write_message : List ℕ → ErrorFrame → ErrorFrame
write_message text frame =
    let offset = strlen msg_size frame.msg 0 in
    if leb msg_size offset
    then frame
    else record frame { msg = vsnprintf frame.msg 0 (msg_size - offset) text }

-- `text` is the message as formatted from the format string and its arguments.
pub error_append_message : List ℕ → ErrorState → Option ErrorState
unfolding error_trace_nth
error_append_message text s =
    if s.error_count == 0 then none else elim (error_trace_nth (s.error_count - 1) s) [
      | none ↦ some s
      | some i ↦
          some
            (record s { error_list = store s.error_list i (write_message text (s.error_list i)) })
    ]

abbrev append_all : List (List ℕ) → ErrorState → Option ErrorState
append_all [] s = some s
append_all (text ∷ texts) s = elim (error_append_message text s) [
  | none ↦ none
  | some s' ↦ append_all texts s'
]

-- The macro `failure`: a frame with its messages. The caller returns FAILURE.
pub failure : String → String → ℕ → ℕ → List (List ℕ) → ErrorState → Option ErrorState
unfolding error_push
failure file func line code texts s = elim (error_push file func line code s) [
  | none ↦ none
  | some s' ↦ append_all texts s'
]
