-- ===== src/Processor.antt =====
-- ai-processor/main.go: the handlers of `main`. A request to `/process` is its method, and whether
-- it is cancelled before the time of the job is over; the text of that time is an argument.
use serverless_gpu_linode.Common.{ℕ, String, Bool, not, List, [], ◌∷◌, if◌then◌else◌, str_eq, codes}

pub record Reply : Type 0 where
  pub status : ℕ
  pub fields : List (String × List ℕ)

unfoldable pub handle_process : List ℕ → String → Bool → Reply
handle_process process_duration method canceled =
    if not (str_eq method "POST")
    then record { status = 405; fields = [] }
    else (if canceled then record { status = 408; fields = [] } else record {
      status = 200;
      fields = ("status", codes "completed") ∷ ("duration", process_duration) ∷ [];
    })
