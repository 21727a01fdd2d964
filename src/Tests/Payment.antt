-- ===== src/Tests/Payment.antt =====
-- Examples for payment.py: two vouchers that pay a price of 5, and a signed payment of 4.
use sovereign_inference.Base.{true, false, List, [], ◌∷◌, ◌≡◌, refl, contains, discard}
use sovereign_inference.Json.{
  Dict, get_or, elements, set, without, array_of, dict_of, in_texts, item, set_some,
}
use sovereign_inference.Protocol.Signing.{verify, after_prefix, sign, public_key_str}
use sovereign_inference.Protocol.Documents.{signed_document, is_signed, covered_bytes}
use sovereign_inference.Protocol.Artifacts.{
  build_voucher, sign_voucher, verify_voucher, voucher_is_expired,
}
use sovereign_inference.Pic.SpentSet.{is_spent, spend, unspend, unspend_all}
use sovereign_inference.Pic.X402.{
  build_x402_payment, amount_covers, false_on_bad_number, is_fresh, misbound, verify_inner,
  verify_x402_payment, x402_nonce,
}
use sovereign_inference.Result.{ok}
use sovereign_inference.Pic.Payment.{
  Terms, redeemed, redeem_payment, build_pic_payment, redeem_pic, redeem_vouchers, distinct_ids,
  validate_all, validate_voucher, add_denomination, redeem_x402, settle_pic, spend_all, x402_amount,
}
use sovereign_inference.Pic.Payment.Outcome.{NotAccepted}
use sovereign_inference.Pic.Payment.Ids.{Fresh}
use sovereign_inference.Pic.Payment.Safety.{
  Charges, redeem_payment_all_or_nothing, redeem_payment_check_then_charge,
  redeem_payment_single_use, keys_charged, keys_charged-Fresh,
}
use sovereign_inference.Pic.Payment.Soundness.{
  PicSound, X402Sound, redeem_payment-PicSound, redeem_payment-X402Sound,
}
use sovereign_inference.Tests.Sample.{
  toy, pic_payment, x402_payment, terms_of, encode, tick, decode, digit, coefficient,
}

pic_checked : (redeem_payment toy pic_payment (terms_of "5") [] false).0 ≡ ok (redeemed "pic" "5")
unfolding redeem_payment get_or build_pic_payment redeem_pic elements redeem_vouchers distinct_ids
    sign_voucher signed_document set without build_voucher contains validate_all validate_voucher
    verify_voucher is_signed verify discard array_of dict_of in_texts item add_denomination
    redeem_x402 settle_pic spend_all x402_amount is_spent spend unspend unspend_all amount_covers
    false_on_bad_number is_fresh misbound verify_inner verify_x402_payment x402_nonce
    voucher_is_expired covered_bytes after_prefix sign set_some build_x402_payment public_key_str
    encode tick decode digit coefficient
pic_checked = refl

x402_checked :
    (redeem_payment toy x402_payment (terms_of "4") [] false).0 ≡ ok (redeemed "x402" "4")
unfolding redeem_payment get_or build_pic_payment redeem_pic elements redeem_vouchers distinct_ids
    sign_voucher signed_document set without build_voucher contains validate_all validate_voucher
    verify_voucher is_signed verify discard array_of dict_of in_texts item add_denomination
    redeem_x402 settle_pic spend_all x402_amount is_spent spend unspend unspend_all amount_covers
    false_on_bad_number is_fresh misbound verify_inner verify_x402_payment x402_nonce
    voucher_is_expired covered_bytes after_prefix sign set_some build_x402_payment public_key_str
    encode tick decode digit coefficient
x402_checked = refl

pic_charged : (redeem_payment toy pic_payment (terms_of "5") [] true).0 ≡ ok (redeemed "pic" "5")
pic_charged =
    redeem_payment_check_then_charge toy pic_payment (terms_of "5") [] (redeemed "pic" "5")
      pic_checked refl

redeem_payment_all_or_nothing_example :
    Charges pic_payment true [] (redeem_payment toy pic_payment (terms_of "5") [] true)
redeem_payment_all_or_nothing_example =
    redeem_payment_all_or_nothing toy pic_payment (terms_of "5") [] true

redeem_payment_check_then_charge_example :
    (redeem_payment toy x402_payment (terms_of "4") [] true).0 ≡ ok (redeemed "x402" "4")
redeem_payment_check_then_charge_example =
    redeem_payment_check_then_charge toy x402_payment (terms_of "4") [] (redeemed "x402" "4")
      x402_checked refl

redeem_payment_single_use_example :
    NotAccepted
      (redeem_payment toy pic_payment
        (terms_of "1")
        (redeem_payment toy pic_payment (terms_of "5") [] true).1
        true).0
redeem_payment_single_use_example =
    redeem_payment_single_use toy pic_payment (terms_of "5") [] (redeemed "pic" "5")
      (redeem_payment toy pic_payment (terms_of "5") [] true).1 (terms_of "1") true pic_charged refl
      (λ k h. h)

abbrev served_requests : List (Dict × Terms)
served_requests =
    (pic_payment, terms_of "5") ∷ (x402_payment, terms_of "4") ∷ (pic_payment, terms_of "1") ∷ []

keys_charged-Fresh_example : Fresh [] (keys_charged toy [] served_requests)
keys_charged-Fresh_example = keys_charged-Fresh toy [] served_requests

redeem_payment-PicSound_example : PicSound toy (terms_of "5") pic_payment
unfolding get_or build_pic_payment
redeem_payment-PicSound_example =
    redeem_payment-PicSound toy pic_payment (terms_of "5") [] false (redeemed "pic" "5") pic_checked
      refl refl

redeem_payment-X402Sound_example : X402Sound toy (terms_of "4") x402_payment
unfolding get_or build_x402_payment
redeem_payment-X402Sound_example =
    redeem_payment-X402Sound toy x402_payment (terms_of "4") [] false (redeemed "x402" "4")
      x402_checked refl refl
