-- ===== src/Encryption/Tests.antt =====
-- A plain thermometer is to encrypt, and answers all but the read-back.
use ha_telink_manager.Prelude.{true, none, some, [], ◌≡◌}
use ha_telink_manager.Blob.{Blob}
use ha_telink_manager.Encryption.{Answers, echoed, wrote_block, set_encryption}
use ha_telink_manager.Encryption.Confirmed.{is_honest, set_encryption_honest}

abbrev plain : Blob
plain = record {
  flg = 167;
  flg2 = 24;
  byte2 = 64;
  byte3 = 5;
  adv_interval = 40;
  measure_interval = 4;
  rf_tx_power = 191;
  connect_latency = 49;
  lcd_refresh = 49;
  hw_ver = 3;
  averaging = 180;
  tail = [];
}

abbrev no_read_back : Answers
no_read_back = record {
  stored = none;
  echo = echoed (some "00ff");
  block = wrote_block;
  after = none;
}

set_encryption_honest_example :
    is_honest true no_read_back.after (set_encryption true none 0x56 plain "00ff" no_read_back)
    ≡ true
set_encryption_honest_example = set_encryption_honest true none 0x56 plain "00ff" no_read_back
