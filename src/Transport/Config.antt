-- ===== src/Transport/Config.antt =====
-- teltonika.go: the optional last argument of the decoding functions.
use teltonika.Prelude.{
  Bool, true, false, Option, none, some, List, [], ◌∷◌, Result, ok, err, too_many_arguments,
}
use teltonika.Packet.{DecodeConfig, on_heap, on_read_buffer}

unfoldable pub default_decode_config : DecodeConfig
default_decode_config = record { io_elements_alloc = on_heap }

-- `config ...*DecodeConfig`: more than one is an error, a nil one stands for the default.
unfoldable pub choose_config : List (Option DecodeConfig) → Result DecodeConfig
unfolding default_decode_config
choose_config [] = ok default_decode_config
choose_config (some cfg ∷ []) = ok cfg
choose_config (none ∷ []) = ok default_decode_config
choose_config (_ ∷ _ ∷ _) = err too_many_arguments

-- `config.IoElementsAlloc == OnHeap`
unfoldable pub is_on_heap : DecodeConfig → Bool
is_on_heap cfg = elim cfg.io_elements_alloc [ on_heap ↦ true | on_read_buffer ↦ false ]
