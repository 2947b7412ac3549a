-- ===== src/Path/Stat.antt =====
-- The questions to the file system of src/file_handlers.c. What `stat` and `mkdir` do is an argument.
use simle_http_server.Prelude.{
  ℕ, Bool, false, Option, none, some, Outcome, ok, crash, undefined, ℤ, pos,
}
use simle_http_server.Peer.{CString}

-- `struct stat`, as far as it is read.
pub record FileStatus : Type 0 where
  pub is_directory : Bool
  pub is_regular : Bool
  pub size : ℕ

module _ (stat : CString → Option FileStatus) where
  unfoldable pub is_dir : CString → Bool
  is_dir path = elim (stat path) [ none ↦ false | some st ↦ st.is_directory ]

  unfoldable pub is_regular_file : CString → Bool
  is_regular_file path = elim (stat path) [ none ↦ false | some st ↦ st.is_regular ]

  -- The folder is made if there is nothing of that name; else the result is 0.
  unfoldable pub create_folder : (CString → ℤ) → CString → ℤ
  create_folder mkdir path = elim (stat path) [ none ↦ mkdir path | some _ ↦ pos 0 ]

  -- The result of `stat` is not looked at: without a file the size is read from memory that is not set.
  unfoldable pub get_file_len : CString → Outcome ℕ
  get_file_len path = elim (stat path) [ none ↦ crash undefined | some st ↦ ok st.size ]
