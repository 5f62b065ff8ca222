-- ===== src/Envelope/Examples.antt =====
-- The theorems on JWE envelopes at concrete inputs, on a platform for which its laws are proved.
use vti_didcomm_js.Prelude.{
  none, ℕ, true, false, some, List, [], ◌∷◌, ◌++◌, length, replicate, ok, ◌≡◌, refl, arith, All,
  IsByte,
}
use vti_didcomm_js.Prelude.Text.{Text, codes, text_eq, starts_with, includes}
use vti_didcomm_js.Platform.{byte_order_mark}
use vti_didcomm_js.DidScid.{scid_identity, scid_src, split_src, strip_scid_src, without, before}
use vti_didcomm_js.Json.{
  Json, object, string, member, end, get, field, as_string, is_plain, is_plain_name, is_record,
}
use vti_didcomm_js.Envelope.Toy.{toy, toy-IsPlatform}
use vti_didcomm_js.Envelope.ContentEncryption.{assert_length}
use vti_didcomm_js.Envelope.Agreement.{
  point_coordinates, is_uncompressed, p256, key_pair_on, crv_of, derive_kek_authcrypt,
  recipient_kek_authcrypt,
}
use vti_didcomm_js.Envelope.Agreement.Symmetry.{IsKeyPair, kek_authcrypt-agree}
use vti_didcomm_js.Envelope.Jwk.{
  private_jwk, public_jwk, public_members, is_ec_curve, with_kid, ec_members,
}
use vti_didcomm_js.Envelope.Jwk.Raw.{jwk_members}
use vti_didcomm_js.Envelope.Pack.{Party, Draw, kid_with_src, sender_kid, pack, pack_anoncrypt}
use vti_didcomm_js.Envelope.Unpack.{is_bound, unpack}
use vti_didcomm_js.Envelope.RoundTrip.{IsDraw, IsHolder, public_value, private_value}
use vti_didcomm_js.Envelope.RoundTrip.Authcrypt.{authenticated_as}
use vti_didcomm_js.Envelope.RoundTrip.Message.{unpack-pack}
use vti_didcomm_js.MediatorTransport.Messages.{peek_skid}
use vti_didcomm_js.MediatorTransport.Peek.{unpack-peek_skid}
use vti_didcomm_js.Envelope.RoundTrip.Anoncrypt.{unauthenticated, unpack-pack_anoncrypt}

abbrev key : List ℕ
key = replicate 32 0

key-bytes : All IsByte key
key-bytes = omega arith

abbrev draw : Draw
draw = record { ephemeral = key; cek = replicate 64 7; iv = replicate 16 9 }

draw-IsDraw : IsDraw draw
draw-IsDraw = record {
  cek_size = refl;
  cek_bytes = omega arith;
  iv_size = refl;
  iv_bytes = omega arith;
}

abbrev own : Json
own = private_value p256 key key key

abbrev pub shared : Json
shared = public_value p256 key key

key-IsKeyPair : IsKeyPair toy p256 key (4 ∷ (key ++ key))
unfolding key_pair_on
key-IsKeyPair = record { private_size = refl; private_bytes = key-bytes; matches = refl }

abbrev pub message : Json
message = object (
    member (codes "from") (string (codes "did:ex:alice"))
      (member (codes "id") (string (codes "1")) end))

abbrev sender : Party
sender = record { kid = codes "did:ex:alice#1"; jwk = own }

abbrev recipient : Party
recipient = record { kid = codes "did:ex:bob#1"; jwk = shared }

abbrev pub reader : Party
reader = record { kid = codes "did:ex:bob#1"; jwk = own }

key-IsHolder : IsHolder toy p256 key (4 ∷ (key ++ key)) own shared
unfolding private_jwk public_jwk public_members is_ec_curve with_kid point_coordinates
    is_uncompressed assert_length text_eq jwk_members ec_members
key-IsHolder = record { pair = key-IsKeyPair; own_jwk = refl; shared_jwk = refl }

message-plain : is_plain message ≡ true
unfolding is_plain is_plain_name field text_eq
message-plain = refl

message_skid :
    sender_kid (codes "did:ex:alice#1") (as_string (get message (codes "from")))
    ≡ codes "did:ex:alice#1"
unfolding sender_kid kid_with_src scid_src as_string get field text_eq split_src starts_with
message_skid = refl

message_bound :
    is_bound (scid_identity (codes "did:ex:alice#1")) (as_string (get message (codes "from")))
    ≡ true
unfolding is_bound scid_identity as_string get field text_eq starts_with strip_scid_src without
    split_src before includes
message_bound = refl

named : text_eq (codes "did:ex:alice#1") [] ≡ false
unfolding text_eq
named = refl

reader_named : text_eq (codes "did:ex:bob#1") [] ≡ false
unfolding text_eq
reader_named = refl

unmarked : starts_with (codes "did:ex:alice#1") byte_order_mark ≡ false
unfolding starts_with
unmarked = refl

message-is_record : is_record message ≡ true
unfolding is_record
message-is_record = refl

unpack-pack_example :
    (text : Text) × (pack toy message sender recipient draw ≡ ok text)
    × (unpack toy text reader (some shared)
        ≡ ok (authenticated_as (codes "did:ex:alice#1") message))
unpack-pack_example =
    unpack-pack toy toy-IsPlatform p256 message (codes "did:ex:alice#1") (codes "did:ex:bob#1") 100
      (codes "id:ex:alice#1") draw (4 ∷ (key ++ key)) key (4 ∷ (key ++ key)) key (4 ∷ (key ++ key))
      own shared own shared draw-IsDraw key-IsKeyPair key-IsHolder key-IsHolder message-plain
      message-is_record named reader_named message_skid refl unmarked message_bound (omega arith)
      (omega arith)

pub delivered :
    (text : Text) × (pack toy message sender recipient draw ≡ ok text)
    × (unpack toy text reader (some shared)
        ≡ ok (authenticated_as (codes "did:ex:alice#1") message))
delivered =
    unpack-pack toy toy-IsPlatform p256 message (codes "did:ex:alice#1") (codes "did:ex:bob#1") 100
      (codes "id:ex:alice#1") draw (4 ∷ (key ++ key)) key (4 ∷ (key ++ key)) key (4 ∷ (key ++ key))
      own shared own shared draw-IsDraw key-IsKeyPair key-IsHolder key-IsHolder message-plain
      message-is_record named reader_named message_skid refl unmarked message_bound (omega arith)
      (omega arith)

kek_authcrypt-agree_example :
    (kek : List ℕ) × (derive_kek_authcrypt toy
        (crv_of p256)
        key
        key
        (4 ∷ (key ++ key))
        (codes "A")
        (1 ∷ [])
        (2 ∷ [])
        (3 ∷ [])
        true
      ≡ ok kek)
    × (recipient_kek_authcrypt toy
          (crv_of p256)
          key
          (4 ∷ (key ++ key))
          (4 ∷ (key ++ key))
          (codes "A")
          (1 ∷ [])
          (2 ∷ [])
          (3 ∷ [])
          true
        ≡ ok kek)
    × (length kek ≡ 32)
kek_authcrypt-agree_example =
    kek_authcrypt-agree toy toy-IsPlatform p256 key (4 ∷ (key ++ key)) key (4 ∷ (key ++ key)) key
      (4 ∷ (key ++ key)) 65 [] (1 ∷ []) (2 ∷ []) (3 ∷ []) true key-IsKeyPair key-IsKeyPair
      key-IsKeyPair (omega arith) (omega arith) (omega arith) (omega arith)

unpack-pack_anoncrypt_example :
    (text : Text) × (pack_anoncrypt toy message recipient draw ≡ ok text)
    × (unpack toy text reader none ≡ ok (unauthenticated message))
unpack-pack_anoncrypt_example =
    unpack-pack_anoncrypt toy toy-IsPlatform p256 message (codes "did:ex:bob#1") draw
      (4 ∷ (key ++ key)) key (4 ∷ (key ++ key)) own shared none draw-IsDraw key-IsKeyPair
      key-IsHolder message-plain message-is_record reader_named (omega arith)

unpack-peek_skid_example : peek_skid toy delivered.0 ≡ some (codes "did:ex:alice#1")
unpack-peek_skid_example =
    unpack-peek_skid toy delivered.0 reader (some shared)
      (authenticated_as (codes "did:ex:alice#1") message) delivered.2 refl
