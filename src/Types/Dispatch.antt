-- ===== src/Types/Dispatch.antt =====
-- DispatchResult and ProcessingResult of types.go. The per-platform maps count by platform.
use grnoti.Prelude.{ℕ, ◌+◌, Bool, List, [], String}
use grnoti.Prelude.Maps.{Map}
use grnoti.Types.Errors.{Error}

pub record DispatchResult : Type 0 where
  pub success_count : ℕ
  pub failure_count : ℕ
  pub invalid_fids : List String
  pub retryable_errors : ℕ
  pub errors : List Error
  pub success_by_platform : Map ℕ
  pub failure_by_platform : Map ℕ

-- DispatchResult{}; a nil map reads like an empty one.
abbrev pub no_dispatch : DispatchResult
no_dispatch = record {
  success_count = 0;
  failure_count = 0;
  invalid_fids = [];
  retryable_errors = 0;
  errors = [];
  success_by_platform = [];
  failure_by_platform = [];
}

unfoldable pub total_count : DispatchResult → ℕ
total_count d = d.success_count + d.failure_count

pub record ProcessingResult : Type 0 where
  pub event_id : String
  pub user_id : String
  pub device_count : ℕ
  pub dispatch_result : DispatchResult
  pub processed_at : ℕ
  pub duration : ℕ
  pub skipped : Bool
  pub skip_reason : String
