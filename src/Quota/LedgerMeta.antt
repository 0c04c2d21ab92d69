-- ===== src/Quota/LedgerMeta.antt =====
-- The constructors of `LedgerMeta` in src/quota.rs.
use yunova.Base.{none, some, String}
use yunova.Schema.{LedgerMeta, TokenUsage, no_usage}

unfoldable pub chat_usage : String → String → TokenUsage → LedgerMeta
chat_usage protocol model usage = record {
  kind = "chat";
  protocol = some protocol;
  model = some model;
  usage = usage;
}

unfoldable pub image : String → String → LedgerMeta
image protocol model = record {
  kind = "image";
  protocol = some protocol;
  model = some model;
  usage = no_usage;
}

unfoldable pub refund_image : String → LedgerMeta
refund_image model = record {
  kind = "image";
  protocol = none;
  model = some model;
  usage = no_usage;
}

unfoldable pub video : String → LedgerMeta
video model = record {
  kind = "video";
  protocol = some "openai";
  model = some model;
  usage = no_usage;
}

unfoldable pub refund_video : String → LedgerMeta
refund_video model = record {
  kind = "video";
  protocol = none;
  model = some model;
  usage = no_usage;
}

unfoldable pub grant : LedgerMeta
grant = record { kind = "grant"; protocol = none; model = none; usage = no_usage }

unfoldable pub recharge : LedgerMeta
recharge = record { kind = "recharge"; protocol = none; model = none; usage = no_usage }

unfoldable pub adjust : LedgerMeta
adjust = record { kind = "adjust"; protocol = none; model = none; usage = no_usage }
