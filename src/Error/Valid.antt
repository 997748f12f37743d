-- ===== src/Error/Valid.antt =====
-- The error state stays well formed: at most 32 frames, each with a terminated message.
use wednesday.Base.{ℕ, ◌-◌, ◌≤◌, ◌<◌, ◌≡◌, arith, some, List, length, ap, refl, store}
use wednesday.Error.{ErrorState, ErrorFrame, max_errors, msg_size, push_frame, error_push}
use wednesday.Error.{error_trace_nth, error_append_message}
use wednesday.Error.Message.{message, message-empty, message-write_message, IsText}
use Prim.Native.String.{String}

pub record IsValid (s : ErrorState) : Type 0 where
  pub few : s.error_count ≤ max_errors
  pub terminated : (i : ℕ) → i < s.error_count → length (message (s.error_list i)) < msg_size

-- A push that does not stop the program keeps the state well formed.
pub error_push-IsValid :
    (file func : String) (line code : ℕ) (s s' : ErrorState)
    → IsValid s
    → error_push file func line code s ≡ some s'
    → IsValid s'
unfolding error_push push_frame
error_push-IsValid file func line code s s' v e = record {
  few = ground (arith, v.few);
  terminated = λ i lt. terminated i lt;
}
  where
    fresh : ErrorFrame
    fresh = record {
      file = file;
      func = func;
      line = line;
      code = code;
      msg = store (s.error_list s.error_count).msg 0 0;
    }

    terminated : (i : ℕ) → i < s'.error_count → length (message (s'.error_list i)) < msg_size
    terminated i lt = ground (arith, v.few, v.terminated i, ap length (message-empty fresh refl))

-- So does a message, full trace or not.
pub error_append_message-IsValid :
    (text : List ℕ) (s s' : ErrorState)
    → IsText text
    → IsValid s
    → error_append_message text s ≡ some s'
    → IsValid s'
unfolding error_append_message error_trace_nth
error_append_message-IsValid text s s' h v e = record {
  few = ground (arith, v.few);
  terminated = λ i lt. terminated i lt;
}
  where
    terminated : (i : ℕ) → i < s'.error_count → length (message (s'.error_list i)) < msg_size
    terminated i lt = ground (
      arith,
      v.few,
      v.terminated i,
      message-write_message text (s.error_list (s.error_count - 1)) h,
    )
