-- ===== src/MediaEngine/Tests.antt =====
-- mediaengine.go with an engine that notes the payload types that are registered.
use mini_sfu.Base.{ℕ, ◌≡◌, refl, List, [], ◌∷◌, ◌++◌, inr}
use mini_sfu.MediaEngine.{
  Engine, register_codecs, register_extensions, get_media_engine, get_subscriber_media_engine,
}

abbrev noting : Engine (List ℕ) ℕ
noting = record {
  register_codec = λ me c kind. inr (me ++ (c.payload_type ∷ []));
  register_header_extension = λ me x kind. inr me;
}

abbrev payload_types : List ℕ
payload_types = 111 ∷ 96 ∷ 98 ∷ 100 ∷ 102 ∷ 127 ∷ 125 ∷ 108 ∷ 123 ∷ []

publishes : get_media_engine noting [] ≡ inr payload_types
unfolding get_media_engine register_codecs register_extensions
publishes = refl

subscribes : get_subscriber_media_engine noting [] ≡ inr payload_types
unfolding get_subscriber_media_engine register_codecs register_extensions
subscribes = refl
