-- ===== src/Db/Errors.antt =====
-- The exceptions that the services throw, one constructor for each class and message.
use buyseekk.Prelude.{ℕ}

pub data Error : Type 0 where
  -- NotFoundException
  request_not_found offer_not_found chat_not_found : Error
  -- ForbiddenException
  forbidden admin_no_marketplace email_not_verified account_blocked account_suspended : Error
  country_mismatch chat_not_available buyers_only : Error
  -- BadRequestException
  request_closed request_not_offerable seller_profile_incomplete own_request : Error
  no_images too_many_images image_rejected message_required message_too_long : Error
  spam_content invalid_amount hourly_limit duplicate_message daily_limit : Error
  offer_processed not_accepted_deal chat_required negotiation_already_ended : Error
  deal_with_other_seller request_already_closed deal_failed : Error
  not_accepted_negotiation deal_already_completed end_failed : Error
  pending_not_removable active_not_removable not_removable not_rejected : Error
  message_empty chat_is_history saved_search_limit : Error
  other_country invalid_city invalid_zone zone_required : Error
  car_fields_missing invalid_car invalid_mileage title_required bedrooms_required : Error
  invalid_sqm car_fields_misplaced too_many_requests duplicate_request : Error
  no_fields closed_edit negotiating_edit pending_edit incomplete_car incomplete_home : Error
  invalid_bedrooms : Error
  -- ConflictException
  duplicate_offer deal_conflict active_negotiations : Error
  -- a row that a foreign key names is missing, which the database rules out
  broken_reference : Error

-- The HTTP status that the exception's class carries.
unfoldable pub http_status : Error → ℕ
http_status Error.request_not_found = 404
http_status Error.offer_not_found = 404
http_status Error.chat_not_found = 404
http_status Error.forbidden = 403
http_status Error.admin_no_marketplace = 403
http_status Error.email_not_verified = 403
http_status Error.account_blocked = 403
http_status Error.account_suspended = 403
http_status Error.country_mismatch = 403
http_status Error.chat_not_available = 403
http_status Error.buyers_only = 403
http_status Error.duplicate_offer = 409
http_status Error.deal_conflict = 409
http_status Error.active_negotiations = 409
http_status Error.broken_reference = 500
http_status _ = 400
