-- ===== src/Tests/Ledgers.antt =====
-- Fills and protections on the sample ledger.
use hanstock_svc.Base.{
  ℕ, ◌≡◌, refl, true, false, pos, arith, find_row, update_row, append_row, find_where, sum_where,
  Result, ok,
}
use hanstock_svc.Schema.{Db, submitted, partially_filled}
use hanstock_svc.Execution.{
  FillResult, apply_managed_fill, prior_fill, find_fill, new_fill, book_side, book_buy,
  protect_bought, record_fill, weighted,
}
use hanstock_svc.Execution.Replay.{apply_managed_fill-replay}
use hanstock_svc.Execution.Conservation.{IsConserved, apply_managed_fill-IsConserved}
use hanstock_svc.Tests.Samples.{whole_won, db_with, answer_of, state_of}

abbrev pub no_answer : FillResult
no_answer = record {
  order_id = 0;
  position_id = 0;
  filled_qty = 0;
  order_status = submitted;
  position_remaining_qty = 0;
  duplicate = false;
}

abbrev pub four : Result (FillResult × Db ℕ)
four = apply_managed_fill 1 (pos 4) 70000 "{}" "f1" "t1" (db_with submitted)

fill_runs : (answer_of no_answer four) ≡ record {
  order_id = 1;
  position_id = 1;
  filled_qty = 4;
  order_status = partially_filled;
  position_remaining_qty = 4;
  duplicate = false;
}
unfolding apply_managed_fill prior_fill find_fill new_fill book_side book_buy protect_bought
    record_fill weighted find_row update_row append_row find_where
fill_runs = refl

db_with-IsConserved : IsConserved (db_with submitted)
unfolding find_row sum_where
db_with-IsConserved = record {
  order_ids = (((refl, tt)), (omega arith, tt));
  entered = λ pid p e. ground arith;
  held = λ pid p e. ground arith;
}

apply_managed_fill-IsConserved_example : IsConserved (state_of (db_with submitted) four)
unfolding apply_managed_fill prior_fill find_fill new_fill book_side book_buy protect_bought
    record_fill weighted find_row update_row append_row find_where
apply_managed_fill-IsConserved_example =
    apply_managed_fill-IsConserved 1 (pos 4) 70000 "{}" "f1" "t1" (db_with submitted)
      (answer_of no_answer four) (state_of (db_with submitted) four) db_with-IsConserved refl

apply_managed_fill-replay_example :
    apply_managed_fill 1 (pos 4) 70000 "{}" "f1" "t2" (state_of (db_with submitted) four)
    ≡ ok (record (answer_of no_answer four) { duplicate = true }, state_of (db_with submitted) four)
unfolding apply_managed_fill prior_fill find_fill new_fill book_side book_buy protect_bought
    record_fill weighted find_row update_row append_row find_where
apply_managed_fill-replay_example =
    apply_managed_fill-replay 1 (pos 4) 70000 "{}" "f1" "t1" (db_with submitted)
      (answer_of no_answer four) (state_of (db_with submitted) four) 3 70000 "{}" "t2" refl refl
      refl refl
