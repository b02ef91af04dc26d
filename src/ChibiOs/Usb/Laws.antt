-- ===== src/ChibiOs/Usb/Laws.antt =====
-- The descriptors of usbcfg.c, read as a USB host reads them.
use libdronecan.Prelude.{
  bit_or, ℕ, zero, suc, ◌+◌, ◌*◌, ◌/◌, ◌%◌, ◌≡◌, ◌≢◌, refl, List, [], ◌∷◌, ◌++◌, Option, none, some,
  length, Bool-cases, inl, inr, ==_ne, get_or, drop, take, ltb, ◌==◌, if◌then◌else◌,
}
use libdronecan.ChibiOs.Usb.{
  serusbcfg, Chibi, Descriptor, device_descriptor_data, configuration_descriptor_data, string0,
  string1, string2, string3, string_at, get_descriptor, descriptor_of,
}

-- The layouts of the USB standard, chapter 9.6, with which the macros write descriptors.
pub record IsChibi (c : Chibi) : Type 0 where
  pub byte : (x : ℕ) → c.usb_desc_byte x ≡ x ∷ []
  pub word : (x : ℕ) → c.usb_desc_word x ≡ x % 256 ∷ x / 256 ∷ []
  pub bcd : (x : ℕ) → c.usb_desc_bcd x ≡ x % 256 ∷ x / 256 ∷ []
  pub device :
      (u cl su pr pa ve po bd ma na se co : ℕ)
      → c.usb_desc_device u cl su pr pa ve po bd ma na se co
        ≡ 18
          ∷ 1
          ∷ u % 256
          ∷ u / 256
          ∷ cl
          ∷ su
          ∷ pr
          ∷ pa
          ∷ ve % 256
          ∷ ve / 256
          ∷ po % 256
          ∷ po / 256
          ∷ bd % 256
          ∷ bd / 256
          ∷ ma
          ∷ na
          ∷ se
          ∷ co
          ∷ []
  pub configuration :
      (t n v i a p : ℕ)
      → c.usb_desc_configuration t n v i a p ≡ 9 ∷ 2 ∷ t % 256 ∷ t / 256 ∷ n ∷ v ∷ i ∷ a ∷ p ∷ []
  pub interface_of :
      (n a e cl su pr i : ℕ)
      → c.usb_desc_interface n a e cl su pr i ≡ 9 ∷ 4 ∷ n ∷ a ∷ e ∷ cl ∷ su ∷ pr ∷ i ∷ []
  pub endpoint :
      (ad at p i : ℕ) → c.usb_desc_endpoint ad at p i ≡ 7 ∷ 5 ∷ ad ∷ at ∷ p % 256 ∷ p / 256 ∷ i ∷ []

-- A host reads a length, takes the descriptor, and goes on behind it; a length of 0, or one past
-- the end, is malformed.
abbrev pub split_descriptors : ℕ → List ℕ → Option (List (List ℕ))
split_descriptors zero bytes = none
split_descriptors (suc k) [] = some []
split_descriptors (suc k) (n ∷ bytes) =
    let rest = split_descriptors k (drop n (n ∷ bytes)) in
    if (n == 0)
    then none
    else if ltb (length (n ∷ bytes)) n
    then none
    else elim rest [ none ↦ none | some ds ↦ some (take n (n ∷ bytes) ∷ ds) ]

-- Interfaces with the endpoints behind each, as addresses.
abbrev pub interfaces : List (List ℕ) → ℕ
interfaces [] = 0
interfaces (d ∷ ds) = if get_or d 1 0 == 4 then suc (interfaces ds) else interfaces ds

abbrev pub endpoints : List (List ℕ) → List ℕ
endpoints [] = []
endpoints (d ∷ ds) = if get_or d 1 0 == 5 then get_or d 2 0 ∷ endpoints ds else endpoints ds

-- What the interfaces say of their endpoints' number.
abbrev pub endpoints_declared : List (List ℕ) → ℕ
endpoints_declared [] = 0
endpoints_declared (d ∷ ds) =
    if get_or d 1 0 == 4 then get_or d 4 0 + endpoints_declared ds else endpoints_declared ds

abbrev parts : List (List ℕ)
parts =
    (9 ∷ 2 ∷ 67 ∷ 0 ∷ 2 ∷ 1 ∷ 0 ∷ 192 ∷ 50 ∷ [])
    ∷ (9 ∷ 4 ∷ 0 ∷ 0 ∷ 1 ∷ 2 ∷ 2 ∷ 1 ∷ 0 ∷ [])
    ∷ (5 ∷ 36 ∷ 0 ∷ 16 ∷ 1 ∷ [])
    ∷ (5 ∷ 36 ∷ 1 ∷ 0 ∷ 1 ∷ [])
    ∷ (4 ∷ 36 ∷ 2 ∷ 2 ∷ [])
    ∷ (5 ∷ 36 ∷ 6 ∷ 0 ∷ 1 ∷ [])
    ∷ (7 ∷ 5 ∷ 130 ∷ 3 ∷ 8 ∷ 0 ∷ 255 ∷ [])
    ∷ (9 ∷ 4 ∷ 1 ∷ 0 ∷ 2 ∷ 10 ∷ 0 ∷ 0 ∷ 0 ∷ [])
    ∷ (7 ∷ 5 ∷ 1 ∷ 2 ∷ 64 ∷ 0 ∷ 0 ∷ [])
    ∷ (7 ∷ 5 ∷ 129 ∷ 2 ∷ 64 ∷ 0 ∷ 0 ∷ [])
    ∷ []

abbrev joined : List (List ℕ) → List ℕ
joined [] = []
joined (d ∷ ds) = d ++ joined ds

configuration_bytes : (c : Chibi) → IsChibi c → configuration_descriptor_data c ≡ joined parts
unfolding configuration_descriptor_data
configuration_bytes c is =
    rw
      (
        is.configuration 67 0x02 0x01 0 0xC0 50,
        is.interface_of 0x00 0x00 0x01 0x02 0x02 0x01 0,
        is.byte 5,
        is.byte 0x24,
        is.byte 0x00,
        is.bcd 0x0110,
        is.byte 0x01,
        is.byte 4,
        is.byte 0x02,
        is.byte 0x06,
        is.endpoint 0x82 0x03 0x0008 0xFF,
        is.interface_of 0x01 0x00 0x02 0x0A 0x00 0x00 0x00,
        is.endpoint 1 0x02 0x0040 0x00,
        is.endpoint 0x81 0x02 0x0040 0x00,
      )
      refl

-- The configuration descriptor, split at the lengths that its parts give as a USB host does, ends
-- where its total length says; it has as many interfaces as it declares and as many endpoints as
-- they declare, and the endpoints are 0x82, 0x01 and 0x81. The macros of ChibiOS write
-- descriptors as the USB standard lays them out.
pub configuration-split :
    (c : Chibi)
    → IsChibi c
    → let bytes = configuration_descriptor_data c in
      (ds : List (List ℕ)) × (split_descriptors 11 bytes ≡ some ds)
      × (get_or bytes 2 0 + 256 * get_or bytes 3 0 ≡ length bytes)
      × (interfaces ds ≡ get_or bytes 4 0)
      × (length (endpoints ds) ≡ endpoints_declared ds)
      × (endpoints ds ≡ 0x82 ∷ 0x01 ∷ 0x81 ∷ [])
unfolding configuration_descriptor_data
configuration-split c is = rw (configuration_bytes c is) (parts, refl, refl, refl, refl, refl)

-- The first byte of a descriptor is its length.
abbrev pub SaysSize : Descriptor → Type 0
SaysSize d = (get_or d.bytes 0 0 ≡ length d.bytes) × (d.size ≡ length d.bytes)

abbrev pub AnswerSaysSize : Option Descriptor → Type 0
AnswerSaysSize none = Unit
AnswerSaysSize (some d) = SaysSize d

device-SaysSize : (c : Chibi) → IsChibi c → SaysSize (descriptor_of (device_descriptor_data c))
unfolding device_descriptor_data
device-SaysSize c is =
    rw (is.device 0x0110 0x02 0x00 0x00 0x40 0x0483 0x5740 0x0200 1 2 3 1) (refl, refl)

string_at-SaysSize : (c : Chibi) (dindex : ℕ) → IsChibi c → AnswerSaysSize (string_at c dindex)
unfolding string_at string0 string1 string2 string3
string_at-SaysSize c zero is =
    rw (is.byte 4, is.byte c.descriptor_string, is.word 0x0409) (refl, refl)
string_at-SaysSize c (suc zero) is = rw (is.byte 20, is.byte c.descriptor_string) (refl, refl)
string_at-SaysSize c (suc (suc zero)) is = rw (is.byte 28, is.byte c.descriptor_string) (refl, refl)
string_at-SaysSize c (suc (suc (suc zero))) is =
    rw (is.byte 8, is.byte c.descriptor_string) (refl, refl)
string_at-SaysSize c (suc (suc (suc (suc i)))) is = tt

-- Whatever descriptor `get_descriptor` returns, other than that of the configuration, has its
-- size in its first byte, if the macros of ChibiOS write descriptors as the USB standard lays
-- them out.
pub get_descriptor-SaysSize :
    (c : Chibi) (dtype dindex : ℕ)
    → IsChibi c
    → dtype ≢ c.descriptor_configuration
    → AnswerSaysSize (get_descriptor c dtype dindex)
unfolding get_descriptor
get_descriptor-SaysSize c dtype dindex is ne =
    rw (==_ne dtype c.descriptor_configuration ne)
      (elim (Bool-cases (dtype == c.descriptor_device)) [
        | inl hit ↦ rw hit (device-SaysSize c is)
        | inr miss ↦ rw miss (elim (Bool-cases (dtype == c.descriptor_string)) [
          | inl text ↦ rw text (string_at-SaysSize c dindex is)
          | inr other ↦ rw other tt
        ])
      ])

-- The endpoints that the configuration descriptor declares to the host are those of the serial
-- driver, with the direction bit for those that it sends on.
pub serusbcfg-endpoints :
    (c : Chibi)
    → IsChibi c
    → (ds : List (List ℕ)) × (split_descriptors 11 (configuration_descriptor_data c) ≡ some ds)
      × (endpoints ds
          ≡ bit_or serusbcfg.int_in 0x80 ∷ serusbcfg.bulk_out ∷ bit_or serusbcfg.bulk_in 0x80 ∷ [])
serusbcfg-endpoints c is =
    let (ds, parts, total, interfaces_lem, count, ends) = configuration-split c is in
    (ds, parts, ends)
