-- ===== src/Request/Reasons.antt =====
-- The errors that request.cc and srv_util.cc answer with, and their texts in bytes. Both files have
-- an Enofile: that of request.cc is no_file, that of srv_util.cc is not_found.
use libixp.Base.{[], ◌∷◌}
use libixp.Msg.Fields.{Str}

pub data Reason : Type 0 where
  tag_in_use : Reason
  fid_in_use : Reason
  no_func : Reason
  fid_open : Reason
  no_file : Reason
  no_read : Reason
  no_such_fid : Reason
  no_such_tag : Reason
  not_dir : Reason
  interrupted : Reason
  is_dir : Reason
  wstat_type : Reason
  wstat_dev : Reason
  wstat_qid : Reason
  wstat_muid : Reason
  wstat_dmdir : Reason
  not_for_writing : Reason
  walk_from_open : Reason
  not_found : Reason

abbrev pub text : Reason → Str
text tag_in_use = 116 ∷ 97 ∷ 103 ∷ 32 ∷ 105 ∷ 110 ∷ 32 ∷ 117 ∷ 115 ∷ 101 ∷ []
text fid_in_use = 102 ∷ 105 ∷ 100 ∷ 32 ∷ 105 ∷ 110 ∷ 32 ∷ 117 ∷ 115 ∷ 101 ∷ []
text no_func =
    102 ∷ 117 ∷ 110 ∷ 99 ∷ 116 ∷ 105 ∷ 111 ∷ 110 ∷ 32 ∷ 110 ∷ 111 ∷ 116 ∷ 32 ∷ 105 ∷ 109 ∷ 112 ∷ 108
    ∷ 101 ∷ 109 ∷ 101 ∷ 110 ∷ 116 ∷ 101 ∷ 100 ∷ []
text fid_open =
    102 ∷ 105 ∷ 100 ∷ 32 ∷ 105 ∷ 115 ∷ 32 ∷ 97 ∷ 108 ∷ 114 ∷ 101 ∷ 97 ∷ 100 ∷ 121 ∷ 32 ∷ 111 ∷ 112
    ∷ 101 ∷ 110 ∷ []
text no_file =
    102 ∷ 105 ∷ 108 ∷ 101 ∷ 32 ∷ 100 ∷ 111 ∷ 101 ∷ 115 ∷ 32 ∷ 110 ∷ 111 ∷ 116 ∷ 32 ∷ 101 ∷ 120 ∷ 105
    ∷ 115 ∷ 116 ∷ []
text no_read =
    102 ∷ 105 ∷ 108 ∷ 101 ∷ 32 ∷ 110 ∷ 111 ∷ 116 ∷ 32 ∷ 111 ∷ 112 ∷ 101 ∷ 110 ∷ 32 ∷ 102 ∷ 111 ∷ 114
    ∷ 32 ∷ 114 ∷ 101 ∷ 97 ∷ 100 ∷ 105 ∷ 110 ∷ 103 ∷ []
text no_such_fid =
    102 ∷ 105 ∷ 100 ∷ 32 ∷ 100 ∷ 111 ∷ 101 ∷ 115 ∷ 32 ∷ 110 ∷ 111 ∷ 116 ∷ 32 ∷ 101 ∷ 120 ∷ 105 ∷ 115
    ∷ 116 ∷ []
text no_such_tag =
    116 ∷ 97 ∷ 103 ∷ 32 ∷ 100 ∷ 111 ∷ 101 ∷ 115 ∷ 32 ∷ 110 ∷ 111 ∷ 116 ∷ 32 ∷ 101 ∷ 120 ∷ 105 ∷ 115
    ∷ 116 ∷ []
text not_dir =
    110 ∷ 111 ∷ 116 ∷ 32 ∷ 97 ∷ 32 ∷ 100 ∷ 105 ∷ 114 ∷ 101 ∷ 99 ∷ 116 ∷ 111 ∷ 114 ∷ 121 ∷ []
text interrupted = 105 ∷ 110 ∷ 116 ∷ 101 ∷ 114 ∷ 114 ∷ 117 ∷ 112 ∷ 116 ∷ 101 ∷ 100 ∷ []
text is_dir =
    99 ∷ 97 ∷ 110 ∷ 110 ∷ 111 ∷ 116 ∷ 32 ∷ 112 ∷ 101 ∷ 114 ∷ 102 ∷ 111 ∷ 114 ∷ 109 ∷ 32 ∷ 111 ∷ 112
    ∷ 101 ∷ 114 ∷ 97 ∷ 116 ∷ 105 ∷ 111 ∷ 110 ∷ 32 ∷ 111 ∷ 110 ∷ 32 ∷ 97 ∷ 32 ∷ 100 ∷ 105 ∷ 114 ∷ 101
    ∷ 99 ∷ 116 ∷ 111 ∷ 114 ∷ 121 ∷ []
text wstat_type = 119 ∷ 115 ∷ 116 ∷ 97 ∷ 116 ∷ 32 ∷ 111 ∷ 102 ∷ 32 ∷ 116 ∷ 121 ∷ 112 ∷ 101 ∷ []
text wstat_dev = 119 ∷ 115 ∷ 116 ∷ 97 ∷ 116 ∷ 32 ∷ 111 ∷ 102 ∷ 32 ∷ 100 ∷ 101 ∷ 118 ∷ []
text wstat_qid = 119 ∷ 115 ∷ 116 ∷ 97 ∷ 116 ∷ 32 ∷ 111 ∷ 102 ∷ 32 ∷ 113 ∷ 105 ∷ 100 ∷ []
text wstat_muid = 119 ∷ 115 ∷ 116 ∷ 97 ∷ 116 ∷ 32 ∷ 111 ∷ 102 ∷ 32 ∷ 109 ∷ 117 ∷ 105 ∷ 100 ∷ []
text wstat_dmdir =
    119 ∷ 115 ∷ 116 ∷ 97 ∷ 116 ∷ 32 ∷ 111 ∷ 110 ∷ 32 ∷ 68 ∷ 77 ∷ 68 ∷ 73 ∷ 82 ∷ 32 ∷ 98 ∷ 105 ∷ 116
    ∷ []
text not_for_writing =
    119 ∷ 114 ∷ 105 ∷ 116 ∷ 101 ∷ 32 ∷ 111 ∷ 110 ∷ 32 ∷ 102 ∷ 105 ∷ 100 ∷ 32 ∷ 110 ∷ 111 ∷ 116 ∷ 32
    ∷ 111 ∷ 112 ∷ 101 ∷ 110 ∷ 101 ∷ 100 ∷ 32 ∷ 102 ∷ 111 ∷ 114 ∷ 32 ∷ 119 ∷ 114 ∷ 105 ∷ 116 ∷ 105
    ∷ 110 ∷ 103 ∷ []
text walk_from_open =
    99 ∷ 97 ∷ 110 ∷ 110 ∷ 111 ∷ 116 ∷ 32 ∷ 119 ∷ 97 ∷ 108 ∷ 107 ∷ 32 ∷ 102 ∷ 114 ∷ 111 ∷ 109 ∷ 32
    ∷ 97 ∷ 110 ∷ 32 ∷ 111 ∷ 112 ∷ 101 ∷ 110 ∷ 32 ∷ 102 ∷ 105 ∷ 100 ∷ []
text not_found =
    102 ∷ 105 ∷ 108 ∷ 101 ∷ 32 ∷ 110 ∷ 111 ∷ 116 ∷ 32 ∷ 102 ∷ 111 ∷ 117 ∷ 110 ∷ 100 ∷ []
