-- ===== src/Main/Pointers.antt =====
-- The pointers from the helpers to the objects of main (main.cpp), and the functions that bind them
-- (helper/NDNHelper.cpp, helper/LibPcapHelper.cpp).
use ip_ndn_stack_cpp.Prelude.{Option, some}

-- The variables of main that are pointed to.
pub data Local : Type 0 where
  ndn_helper_local : Local
  cache_helper_local : Local
  pending_interest_map_local : Local
  sequence_table_local : Local
  prefix_request_table_local : Local

-- `none` is a pointer that nothing has set.
pub record NdnPointers : Type 0 where
  pub cache_helper : Option Local
  pub pending_interest_map : Option Local
  pub prefix_guest_table : Option Local

pub record CapturePointers : Type 0 where
  pub ndn_helper : Option Local
  pub cache_helper : Option Local
  pub pending_interest_table : Option Local
  pub sequence_table : Option Local

-- NDNHelper's functions.
unfoldable pub bind_cache_helper : Local → NdnPointers → NdnPointers
bind_cache_helper l p = record p { cache_helper = some l }

unfoldable pub bind_pending_interest_map : Local → NdnPointers → NdnPointers
bind_pending_interest_map l p = record p { pending_interest_map = some l }

unfoldable pub bind_prefix_guest_table : Local → NdnPointers → NdnPointers
bind_prefix_guest_table l p = record p { prefix_guest_table = some l }

-- LibPcapHelper's functions.
unfoldable pub bind_ndn_helper : Local → CapturePointers → CapturePointers
bind_ndn_helper l p = record p { ndn_helper = some l }

unfoldable pub bind_capture_cache_helper : Local → CapturePointers → CapturePointers
bind_capture_cache_helper l p = record p { cache_helper = some l }

unfoldable pub bind_pending_interest_table : Local → CapturePointers → CapturePointers
bind_pending_interest_table l p = record p { pending_interest_table = some l }

unfoldable pub bind_sequence_table : Local → CapturePointers → CapturePointers
bind_sequence_table l p = record p { sequence_table = some l }
