-- ===== src/Wizard/Types.antt =====
-- The data of the activation wizard, from frontend/src/types/api.ts, with the fields that the wizard
-- reads; a field that an answer may lack is an option.
use locketgoldhuydev.Prelude.{ℕ, Bool, Option, String, Text}
use locketgoldhuydev.Api.Types.{Message}
use locketgoldhuydev.Queue.{DevicePlatform}

pub data FulfillmentMode : Type 0 where
  auto_activation manual_contact apk_download disabled : FulfillmentMode

pub data Provider : Type 0 where
  legacy_locket lunakey : Provider

pub data Support : Type 0 where
  all only_ios only_android : Support

pub record PlanItem : Type 0 where
  pub id : ℕ
  pub name : String
  pub price_vnd : ℕ
  pub price_coin : ℕ
  pub supported_platforms : Support
  pub ios_fulfillment_mode : Option FulfillmentMode
  pub android_fulfillment_mode : Option FulfillmentMode
  pub activation_provider : Option Provider
  pub existing_gold_supported : Bool

pub record LunakeyProfile : Type 0 where
  pub username : Option Text
  pub name : Option Text
  pub avatar : Option Text
  pub uid : Option Text
  pub has_gold : Option Bool
  pub gold_expiry : Option String
  pub gold_days_left : Option ℕ

pub record UserInfo : Type 0 where
  pub uid : Text
  pub username : Text
  pub first_name : Text
  pub last_name : Text
  pub profile_picture_url : Text

pub data BlockReason : Type 0 where
  already_gold_live duplicate_in_progress : BlockReason

pub record GoldCheck : Type 0 where
  pub is_gold : Bool
  pub expires_date : Option String
  pub block_reason : Option BlockReason
  pub is_renewal : Bool

pub record CouponQuote : Type 0 where
  pub code : Text
  pub original_vnd : ℕ
  pub original_coin : ℕ
  pub discount_vnd : ℕ
  pub discount_coin : ℕ
  pub final_vnd : ℕ
  pub final_coin : ℕ

pub data PaymentStatus : Type 0 where
  pending paid expired cancelled underpaid review_needed : PaymentStatus

-- An order that waits for a bank transfer, without the texts that only the page shows.
pub record QrOrder : Type 0 where
  pub payment_id : ℕ
  pub payment_code : String
  pub payment_ref : Option String
  pub amount_vnd : ℕ
  pub expires_at : ℕ
  pub status : PaymentStatus
  pub locket_username : Text
  pub platform : Option DevicePlatform

-- An idempotency key and what it was used for.
pub record Attempt : Type 0 where
  pub key : String
  pub signature : Text

-- A message on the page: a text, or the one that names the day on which the Gold ends.
pub data Alert : Type 0 where
  says : Message → Alert
  gold_until : String → Alert
