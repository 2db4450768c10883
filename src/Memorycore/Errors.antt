-- ===== src/Memorycore/Errors.antt =====
-- internal/memorycore/errors.go
pub data MemoryError : Type 0 where
  unknown_memory_id area_not_defined invalid_area : MemoryError
  count_zero dst_too_small src_too_small out_of_bounds start_overflow size_zero : MemoryError
  nil_memory empty_port unit_id_zero : MemoryError
