-- ===== src/ChibiOs/Usb/Tests.antt =====
-- The macros as they write, and the constants of the USB standard.
use libdronecan.Prelude.{ℕ, ◌+◌, ◌*◌, ◌/◌, ◌%◌, ◌≡◌, refl, List, [], ◌∷◌, some, length, get_or}
use libdronecan.ChibiOs.Usb.{Chibi, configuration_descriptor_data}
use libdronecan.ChibiOs.Usb.Laws.{
  IsChibi, split_descriptors, interfaces, endpoints, endpoints_declared, configuration-split,
}

abbrev word : ℕ → List ℕ
word x = x % 256 ∷ x / 256 ∷ []

abbrev chibi : Chibi
chibi = record {
  usb_desc_byte = λ x. x ∷ [];
  usb_desc_word = word;
  usb_desc_bcd = word;
  usb_desc_device = λ u cl su pr pa ve po bd ma na se co.
      18
      ∷ 1
      ∷ u % 256
      ∷ u / 256
      ∷ cl
      ∷ su
      ∷ pr
      ∷ pa
      ∷ ve % 256
      ∷ ve / 256
      ∷ po % 256
      ∷ po / 256
      ∷ bd % 256
      ∷ bd / 256
      ∷ ma
      ∷ na
      ∷ se
      ∷ co
      ∷ [];
  usb_desc_configuration = λ t n v i a p. 9 ∷ 2 ∷ t % 256 ∷ t / 256 ∷ n ∷ v ∷ i ∷ a ∷ p ∷ [];
  usb_desc_interface = λ n a e cl su pr i. 9 ∷ 4 ∷ n ∷ a ∷ e ∷ cl ∷ su ∷ pr ∷ i ∷ [];
  usb_desc_endpoint = λ ad at p i. 7 ∷ 5 ∷ ad ∷ at ∷ p % 256 ∷ p / 256 ∷ i ∷ [];
  descriptor_device = 1;
  descriptor_configuration = 2;
  descriptor_string = 3;
  kernel_major = 7;
  kernel_minor = 0;
  kernel_patch = 1;
}

chibi-IsChibi : IsChibi chibi
chibi-IsChibi = record {
  byte = λ x. refl;
  word = λ x. refl;
  bcd = λ x. refl;
  device = λ u cl su pr pa ve po bd ma na se co. refl;
  configuration = λ t n v i a p. refl;
  interface_of = λ n a e cl su pr i. refl;
  endpoint = λ ad at p i. refl;
}

configuration-split_example :
    (ds : List (List ℕ)) × (split_descriptors 11 (configuration_descriptor_data chibi) ≡ some ds)
    × (get_or (configuration_descriptor_data chibi) 2 0
          + 256 * get_or (configuration_descriptor_data chibi) 3 0
        ≡ length (configuration_descriptor_data chibi))
    × (interfaces ds ≡ get_or (configuration_descriptor_data chibi) 4 0)
    × (length (endpoints ds) ≡ endpoints_declared ds)
    × (endpoints ds ≡ 0x82 ∷ 0x01 ∷ 0x81 ∷ [])
configuration-split_example = configuration-split chibi chibi-IsChibi
