-- ===== src/Shared/Limits.antt =====
-- packages/shared/src/limits.ts and the limits of subscription.ts.
use buyseekk.Prelude.{ℕ, ◌*◌}

abbrev pub max_active_requests : ℕ
max_active_requests = 5

abbrev pub offer_message_max_length : ℕ
offer_message_max_length = 180

abbrev pub max_offers_per_hour : ℕ
max_offers_per_hour = 8

abbrev pub spam_duplicate_days : ℕ
spam_duplicate_days = 7

abbrev pub max_images_per_entity : ℕ
max_images_per_entity = 5

abbrev pub default_page_size : ℕ
default_page_size = 20

abbrev pub max_page_size : ℕ
max_page_size = 50

abbrev pub request_confirmation_days : ℕ
request_confirmation_days = 7

abbrev pub request_inactive_after_confirm_hours : ℕ
request_inactive_after_confirm_hours = 24

abbrev pub request_archive_days : ℕ
request_archive_days = 10

abbrev pub free_daily_offer_limit : ℕ
free_daily_offer_limit = 20

abbrev pub free_max_smart_alerts : ℕ
free_max_smart_alerts = 3

abbrev pub hour_ms : ℕ
hour_ms = 60 * 60 * 1000

abbrev pub day_ms : ℕ
day_ms = 24 * 60 * 60 * 1000
