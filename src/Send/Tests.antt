-- ===== src/Send/Tests.antt =====
-- The send of a run with three items, one of them already sent.
use pmvp.Prelude.{◌≡◌, inl, refl, true, false, some, none, [], ◌∷◌}
use pmvp.Delivery.{Delivery, sms, sent, answered, accepted, find_delivery}
use pmvp.Send.{Sending, distribute_run}
use pmvp.Send.Rows.{rows_distinct}
use pmvp.Send.Attempted.{AllAttempted, distribute_run-AllAttempted}
use pmvp.Send.Safety.{distribute_run-keeps}

abbrev posted : Delivery
posted = record {
  id = 5;
  payroll_item_id = 8;
  payroll_run_id = 10;
  distribution_batch_id = some 1;
  channel = sms;
  status = sent;
  provider_message_id = some 77;
  provider_status = none;
  delivered_at = none;
  error = none;
  attempts = 1;
  sent_at = some 400;
  next_retry_at = none;
  claimed_at = some 390;
  updated_at = some 400;
}

abbrev this_send : Sending
this_send = record {
  config = record { max_attempts = 4; backoff_base = 60 };
  run_id = 10;
  only_failed = false;
  batch_id = some 2;
  now = 500;
  channel_of = λ item. sms;
  attempt_of = λ item. answered (accepted (some item));
}

posted_found : find_delivery 5 (posted ∷ []) ≡ some posted
unfolding find_delivery
posted_found = refl

distribute_run-keeps_example :
    find_delivery 5 (distribute_run this_send (7 ∷ 8 ∷ 9 ∷ []) (posted ∷ [])).1 ≡ some posted
distribute_run-keeps_example =
    distribute_run-keeps this_send (7 ∷ 8 ∷ 9 ∷ []) 5 (posted ∷ []) posted_found (inl refl)

posted_distinct : rows_distinct (posted ∷ []) ≡ true
unfolding rows_distinct
posted_distinct = refl

distribute_run-AllAttempted_example :
    AllAttempted this_send.channel_of
      (7 ∷ 8 ∷ 9 ∷ [])
      (distribute_run this_send (7 ∷ 8 ∷ 9 ∷ []) (posted ∷ [])).1
distribute_run-AllAttempted_example =
    distribute_run-AllAttempted this_send (7 ∷ 8 ∷ 9 ∷ []) (posted ∷ []) refl posted_distinct
