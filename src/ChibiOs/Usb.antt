-- ===== src/ChibiOs/Usb.antt =====
-- DC_PAL_ChibiOS/cfg_stm32h7xx/usbcfg.c: the serial port over USB. The macros that write
-- descriptors, and the constants of ChibiOS, are parameters in `Chibi`.
pub mod Laws
mod Tests
use libdronecan.Prelude.{
  ℕ, zero, suc, ◌+◌, ◌*◌, Bool, true, false, List, [], ◌∷◌, ◌++◌, Option, none, some, length,
  bit_or, ltb, ◌==◌, if◌then◌else◌,
}

pub record Chibi : Type 0 where
  pub usb_desc_byte : ℕ → List ℕ
  pub usb_desc_word : ℕ → List ℕ
  pub usb_desc_bcd : ℕ → List ℕ
  pub usb_desc_device :
      (bcd_usb class sub_class protocol packet vendor product bcd_device manufacturer name serial
        configurations : ℕ)
      → List ℕ
  pub usb_desc_configuration : (total interfaces value index attributes power : ℕ) → List ℕ
  pub usb_desc_interface : (number alternate endpoints class sub_class protocol index : ℕ) → List ℕ
  pub usb_desc_endpoint : (address attributes packet interval : ℕ) → List ℕ
  pub descriptor_device : ℕ
  pub descriptor_configuration : ℕ
  pub descriptor_string : ℕ
  pub kernel_major : ℕ
  pub kernel_minor : ℕ
  pub kernel_patch : ℕ

abbrev pub data_request_ep : ℕ
data_request_ep = 1

abbrev pub data_available_ep : ℕ
data_available_ep = 1

abbrev pub interrupt_request_ep : ℕ
interrupt_request_ep = 2

-- `USBDescriptor`
pub record Descriptor : Type 0 where
  pub size : ℕ
  pub bytes : List ℕ

abbrev pub descriptor_of : List ℕ → Descriptor
descriptor_of bytes = record { size = length bytes; bytes = bytes }

pub device_descriptor_data : Chibi → List ℕ
device_descriptor_data c = c.usb_desc_device 0x0110 0x02 0x00 0x00 0x40 0x0483 0x5740 0x0200 1 2 3 1

pub configuration_descriptor_data : Chibi → List ℕ
configuration_descriptor_data c =
    c.usb_desc_configuration 67 0x02 0x01 0 0xC0 50
    ++ (c.usb_desc_interface 0x00 0x00 0x01 0x02 0x02 0x01 0
        ++ (c.usb_desc_byte 5
            ++ (c.usb_desc_byte 0x24
                ++ (c.usb_desc_byte 0x00
                    ++ (c.usb_desc_bcd 0x0110
                        ++ (c.usb_desc_byte 5
                            ++ (c.usb_desc_byte 0x24
                                ++ (c.usb_desc_byte 0x01
                                    ++ (c.usb_desc_byte 0x00
                                        ++ (c.usb_desc_byte 0x01
                                            ++ (c.usb_desc_byte 4
                                                ++ (c.usb_desc_byte 0x24
                                                    ++ (c.usb_desc_byte 0x02
                                                        ++ (c.usb_desc_byte 0x02
                                                            ++ (c.usb_desc_byte 5
                                                            ++ (c.usb_desc_byte 0x24
                                                            ++ (c.usb_desc_byte 0x06
                                                            ++ (c.usb_desc_byte 0x00
                                                            ++ (c.usb_desc_byte 0x01
                                                            ++ (c.usb_desc_endpoint
                                                            (bit_or interrupt_request_ep 0x80) 0x03
                                                            0x0008 0xFF
                                                            ++ (c.usb_desc_interface 0x01 0x00 0x02
                                                            0x0A 0x00 0x00 0x00
                                                            ++ (c.usb_desc_endpoint
                                                            data_available_ep 0x02 0x0040 0x00
                                                            ++ c.usb_desc_endpoint
                                                            (bit_or data_request_ep 0x80) 0x02
                                                            0x0040 0x00))))))))))))))))))))))

-- Characters with a zero byte behind each.
abbrev pub wide : List ℕ → List ℕ
wide [] = []
wide (x ∷ xs) = x ∷ 0 ∷ wide xs

pub string0 : Chibi → List ℕ
string0 c = c.usb_desc_byte 4 ++ (c.usb_desc_byte c.descriptor_string ++ c.usb_desc_word 0x0409)

-- "CubePilot"
pub string1 : Chibi → List ℕ
string1 c =
    c.usb_desc_byte 20
    ++ (c.usb_desc_byte c.descriptor_string
        ++ wide (67 ∷ 117 ∷ 98 ∷ 101 ∷ 80 ∷ 105 ∷ 108 ∷ 111 ∷ 116 ∷ []))

-- "CubeFramework"
pub string2 : Chibi → List ℕ
string2 c =
    c.usb_desc_byte 28
    ++ (c.usb_desc_byte c.descriptor_string
        ++ wide (67 ∷ 117 ∷ 98 ∷ 101 ∷ 70 ∷ 114 ∷ 97 ∷ 109 ∷ 101 ∷ 119 ∷ 111 ∷ 114 ∷ 107 ∷ []))

-- The version of the kernel, as digits.
pub string3 : Chibi → List ℕ
string3 c =
    c.usb_desc_byte 8
    ++ (c.usb_desc_byte c.descriptor_string
        ++ wide ((48 + c.kernel_major) ∷ (48 + c.kernel_minor) ∷ (48 + c.kernel_patch) ∷ []))

pub string_at : Chibi → ℕ → Option Descriptor
string_at c zero = some (descriptor_of (string0 c))
string_at c (suc zero) = some (descriptor_of (string1 c))
string_at c (suc (suc zero)) = some (descriptor_of (string2 c))
string_at c (suc (suc (suc zero))) = some (descriptor_of (string3 c))
string_at c (suc (suc (suc (suc i)))) = none

-- `get_descriptor`; `none` is NULL.
pub get_descriptor : Chibi → (dtype dindex : ℕ) → Option Descriptor
get_descriptor c dtype dindex =
    if dtype == c.descriptor_device
    then some (descriptor_of (device_descriptor_data c))
    else if dtype == c.descriptor_configuration
    then some (descriptor_of (configuration_descriptor_data c))
    else if dtype == c.descriptor_string
    then string_at c dindex
    else none

-- `USBEndpointConfig`, the packet sizes of its two directions.
pub record EndpointConfig : Type 0 where
  pub in_maxsize : ℕ
  pub out_maxsize : ℕ

abbrev pub ep1config : EndpointConfig
ep1config = record { in_maxsize = 0x0040; out_maxsize = 0x0040 }

abbrev pub ep2config : EndpointConfig
ep2config = record { in_maxsize = 0x0010; out_maxsize = 0x0000 }

pub data Event : Type 0 where
  event_address : Event
  event_configured : Event
  event_reset : Event
  event_unconfigured : Event
  event_suspend : Event
  event_wakeup : Event
  event_stalled : Event

pub data Action : Type 0 where
  lock_from_isr : Action
  unlock_from_isr : Action
  init_endpoint : ℕ → EndpointConfig → Action
  configure_hook : Action
  suspend_hook : Action
  wakeup_hook : Action
  sof_hook : Action

-- What `usb_event` calls, in order.
pub usb_event : Event → List Action
usb_event event_address = []
usb_event event_configured =
    lock_from_isr
    ∷ init_endpoint data_request_ep ep1config
    ∷ init_endpoint interrupt_request_ep ep2config
    ∷ configure_hook
    ∷ unlock_from_isr
    ∷ []
usb_event event_reset = lock_from_isr ∷ suspend_hook ∷ unlock_from_isr ∷ []
usb_event event_unconfigured = lock_from_isr ∷ suspend_hook ∷ unlock_from_isr ∷ []
usb_event event_suspend = lock_from_isr ∷ suspend_hook ∷ unlock_from_isr ∷ []
usb_event event_wakeup = lock_from_isr ∷ wakeup_hook ∷ unlock_from_isr ∷ []
usb_event event_stalled = []

pub sof_handler : List Action
sof_handler = lock_from_isr ∷ sof_hook ∷ unlock_from_isr ∷ []

-- `SerialUSBConfig`: the endpoints of the serial driver.
pub record SerialUsbConfig : Type 0 where
  pub bulk_in : ℕ
  pub bulk_out : ℕ
  pub int_in : ℕ

abbrev pub serusbcfg : SerialUsbConfig
serusbcfg = record {
  bulk_in = data_request_ep;
  bulk_out = data_available_ep;
  int_in = interrupt_request_ep;
}
