-- ===== src/Base/Errno.antt =====
-- What a function of the kernel that returns an int gives back: 0, or the negative of an error
-- number (include/aco/errno.h).
pub data Errno : Type 0 where
  success enomem efault eexist einval enobufs eperm : Errno
