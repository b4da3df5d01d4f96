-- ===== src/Codec/Service.antt =====
-- main/bacnet_codec.c, lines 16-24: the service choices.
use esp32_p4_bacnet_switches.Base.{ℕ}

abbrev pub i_am : ℕ
i_am = 0

abbrev pub i_have : ℕ
i_have = 1

abbrev pub confirmed_cov_notification : ℕ
confirmed_cov_notification = 1

abbrev pub unconfirmed_cov_notification : ℕ
unconfirmed_cov_notification = 2

abbrev pub subscribe_cov : ℕ
subscribe_cov = 5

abbrev pub who_has : ℕ
who_has = 7

abbrev pub who_is : ℕ
who_is = 8

abbrev pub read_property : ℕ
read_property = 12

abbrev pub read_property_multiple : ℕ
read_property_multiple = 14
