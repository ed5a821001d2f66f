-- ===== src/Base/Sides.antt =====
-- `Literal["buy", "sell"]` of the trailing stops, and `TradeSide` of keryxflow/core/models.py.
pub data Side : Type 0 where
  buy sell : Side
