-- ===== src/Error/Examples.antt =====
-- Runs of the error functions, and their theorems at concrete inputs.
use wednesday.Base.{ℕ, ◌≤◌, ◌≡◌, refl, arith, some, [], ◌∷◌, List, length, get_elem?}
use wednesday.Error.{ErrorState, ErrorFrame, error_clear}
use wednesday.Error.{error_trace_length, error_trace_nth, error_append_message}
use wednesday.Error.Message.{message, message-empty, Rewritten, error_append_message_overwrites}
use wednesday.Error.Trace.{Reports, Report, push_each, push_each_in_order}
use wednesday.Error.Valid.{IsValid}

abbrev empty_frame : ErrorFrame
empty_frame = record { file = ""; func = ""; line = 0; code = 0; msg = λ _. 0 }

-- `n` frames, none with a message.
abbrev frames : ℕ → ErrorState
frames n = record { error_list = λ _. empty_frame; error_count = n; error_code = 5 }

empty_message : message empty_frame ≡ []
empty_message = message-empty empty_frame refl

frames-IsValid : (n : ℕ) → n ≤ 32 → IsValid (frames n)
frames-IsValid n h = record { few = h; terminated = λ i lt. rw empty_message (omega arith) }

abbrev hi : List ℕ
hi = b'h' ∷ b'i' ∷ []

error_append_message_overwrites_example :
    (s' : ErrorState) × (error_append_message hi (frames 3) ≡ some s')
    × Rewritten 2 hi (frames 3) s'
error_append_message_overwrites_example =
    error_append_message_overwrites hi (frames 3) (omega arith) (omega arith) (omega arith)
      (rw empty_message (omega arith))

abbrev two_reports : List Report
two_reports =
    record { file = "a.c"; func = "f"; line = 1; code = 2 }
    ∷ record { file = "b.c"; func = "g"; line = 3; code = 4 }
    ∷ []

push_each_in_order_example :
    (s' : ErrorState) × (push_each two_reports (error_clear (frames 9)) ≡ some s')
    × (error_trace_length s' ≡ length two_reports)
    × ((i : ℕ) (r : Report)
        → get_elem? two_reports i ≡ some r
        → (error_trace_nth i s' ≡ some i) × Reports r.file r.func r.line r.code (s'.error_list i))
push_each_in_order_example = push_each_in_order two_reports (frames 9) (omega arith) (omega arith)
