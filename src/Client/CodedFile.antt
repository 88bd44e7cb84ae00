-- ===== src/Client/CodedFile.antt =====
-- A write and a read of a file by a client, through the file server and the erasure-coded layer.
use undergraduate_project.Client.Cluster.{Cluster}
