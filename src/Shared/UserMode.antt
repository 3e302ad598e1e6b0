-- ===== src/Shared/UserMode.antt =====
-- packages/shared/src/user-mode.ts and packages/shared/src/seller-profile.ts: what an account may do,
-- which side of the market it sees, and when a seller's profile is complete.
pub mod Laws
use buyseekk.Prelude.{
  Bool, true, false, Option, none, some, ◌&&◌, ◌||◌, not, is_some, or_else, if◌then◌else◌, Text,
  trim, is_empty,
}

pub data UserRole : Type 0 where
  buyer seller both admin : UserRole

pub data UserMode : Type 0 where
  buyer seller : UserMode

pub data SellerType : Type 0 where
  individual company : SellerType

pub data RequestCategory : Type 0 where
  autos inmobiliaria : RequestCategory

unfoldable pub is_buyer_capable_role : UserRole → Bool
is_buyer_capable_role UserRole.buyer = true
is_buyer_capable_role UserRole.both = true
is_buyer_capable_role _ = false

unfoldable pub is_seller_capable_role : UserRole → Bool
is_seller_capable_role UserRole.seller = true
is_seller_capable_role UserRole.both = true
is_seller_capable_role _ = false

-- The fields of an account that the rules read.
pub record SellerProfileFields : Type 0 where
  pub role : UserRole
  pub seller_type : Option SellerType
  pub seller_category : Option RequestCategory
  pub business_name : Option Text
  pub state : Option Text
  pub city : Option Text

unfoldable pub has_completed_seller_profile : SellerProfileFields → Bool
unfolding is_seller_capable_role
has_completed_seller_profile p =
    is_seller_capable_role p.role && is_some p.seller_type && is_some p.seller_category

unfoldable pub can_enter_mode : UserMode → SellerProfileFields → Bool
unfolding has_completed_seller_profile is_buyer_capable_role is_seller_capable_role
can_enter_mode UserMode.seller p = has_completed_seller_profile p
can_enter_mode UserMode.buyer p = is_buyer_capable_role p.role || is_seller_capable_role p.role

abbrev is_seller_mode : UserMode → Bool
is_seller_mode UserMode.seller = true
is_seller_mode UserMode.buyer = false

unfoldable pub resolve_nav_mode : UserRole → UserMode → UserMode
unfolding is_buyer_capable_role is_seller_capable_role
resolve_nav_mode role active_mode =
    if is_seller_mode active_mode && is_seller_capable_role role
    then UserMode.seller
    else if not (is_seller_mode active_mode)
        && (is_buyer_capable_role role || is_seller_capable_role role)
    then UserMode.buyer
    else if is_buyer_capable_role role
    then UserMode.buyer
    else UserMode.seller

unfoldable pub resolve_session_active_mode :
    SellerProfileFields → UserMode → Option UserMode → UserMode
unfolding can_enter_mode
resolve_session_active_mode p active_mode preferred_mode =
    let preferred = or_else preferred_mode active_mode in
    if can_enter_mode preferred p
    then preferred
    else if can_enter_mode active_mode p
    then active_mode
    else UserMode.buyer

unfoldable pub role_after_enabling_seller : UserRole → UserRole
role_after_enabling_seller UserRole.seller = UserRole.seller
role_after_enabling_seller _ = UserRole.both

abbrev wants_seller : Option UserMode → Bool
wants_seller (some UserMode.seller) = true
wants_seller _ = false

unfoldable pub has_pending_seller_onboarding : SellerProfileFields → Option UserMode → Bool
unfolding has_completed_seller_profile
has_pending_seller_onboarding p preferred_mode =
    wants_seller preferred_mode && not (has_completed_seller_profile p)

-- `!!value?.trim()`
unfoldable pub has_text : Option Text → Bool
has_text none = false
has_text (some s) = not (is_empty (trim s))

unfoldable pub has_seller_location : SellerProfileFields → Bool
has_seller_location p = has_text p.state && has_text p.city

-- The last two tests of `canSendOffers`, by the type of seller; a missing type is refused.
unfoldable pub complete_for_type : Option SellerType → SellerProfileFields → Bool
unfolding has_seller_location
complete_for_type none p = false
complete_for_type (some SellerType.individual) p =
    is_some p.seller_category && has_seller_location p
complete_for_type (some SellerType.company) p =
    is_some p.seller_category && has_text p.business_name && has_seller_location p

unfoldable pub can_send_offers : SellerProfileFields → Bool
unfolding is_seller_capable_role complete_for_type
can_send_offers p =
    if not (is_seller_capable_role p.role)
    then false
    else if not (is_some p.seller_type) || not (is_some p.seller_category)
    then false
    else complete_for_type p.seller_type p
