-- ===== src/Shared/UserMode/Laws.antt =====
-- The rules of user-mode.ts and of seller-profile.ts keep an account within its capabilities.
use buyseekk.Prelude.{◌≡◌, ◌≢◌, true, Option, none, arith}
use buyseekk.Shared.UserMode.{
  UserRole, UserMode, SellerProfileFields, is_buyer_capable_role, is_seller_capable_role,
  has_completed_seller_profile, can_enter_mode, resolve_session_active_mode,
  role_after_enabling_seller, has_pending_seller_onboarding, can_send_offers, has_text,
}

-- For every account but an administrator's, the session opens in a mode that the account can enter,
-- and opening it once more with that mode changes nothing; an account that asks for the seller's
-- side gets it exactly if no seller onboarding is pending.
pub resolve_session_active_mode_safe :
    (p : SellerProfileFields) (active : UserMode) (preferred : Option UserMode)
    → p.role ≢ UserRole.admin
    → let mode = resolve_session_active_mode p active preferred in
      (can_enter_mode mode p ≡ true)
      × (resolve_session_active_mode p mode none ≡ mode)
      × (has_pending_seller_onboarding p preferred ≡ true → mode ≡ UserMode.buyer)
unfolding resolve_session_active_mode can_enter_mode has_pending_seller_onboarding
resolve_session_active_mode_safe p active preferred h = ground arith

-- Enabling the seller's side keeps the buyer's capability and adds the seller's.
pub role_after_enabling_seller_grows :
    (role : UserRole)
    → (is_seller_capable_role (role_after_enabling_seller role) ≡ true)
      × (is_buyer_capable_role role ≡ true
          → is_buyer_capable_role (role_after_enabling_seller role) ≡ true)
unfolding role_after_enabling_seller is_seller_capable_role is_buyer_capable_role
role_after_enabling_seller_grows role = ground arith

-- An account that may send offers has completed its seller profile and has given its state and its
-- city.
pub can_send_offers_complete :
    (p : SellerProfileFields)
    → can_send_offers p ≡ true
    → (has_completed_seller_profile p ≡ true) × (has_text p.state ≡ true) × (has_text p.city ≡ true)
unfolding can_send_offers has_completed_seller_profile
can_send_offers_complete p h = ground arith
